-- ===== src/Mq/Nano.antt =====
-- NanoMessage.cpp: the socket wrapper with its error, and its publisher and subscriber.
use wacs.Prelude.{
  ℕ, ℤ, pos, negsuc, Bool, true, false, not, ◌&&◌, Option, none, some, [], length, drop, eq_ℤ, ltb,
  if◌then◌else◌,
}
use wacs.Layout.{Bytes}
use wacs.Mq.{Nn, negative, af_sp, nn_pub, nn_sub, nn_sub_subscribe, ebadf, emsgsize, eterm}

pub record NanoMessage : Type 0 where
  pub family : ℤ
  pub protocol : ℤ
  pub error : ℤ
  pub handle : ℤ
  pub read_offset : ℕ

-- NanoMessage::NanoMessage
unfoldable pub new : ℤ → NanoMessage
new protocol = record {
  family = af_sp;
  protocol = protocol;
  error = pos 0;
  handle = negsuc 0;
  read_offset = 0;
}

unfoldable pub set_family : ℤ → NanoMessage → NanoMessage
set_family value m = record m { family = value }

-- `mError = ERRNO` where the call failed, and else 0.
abbrev pub settle : Bool → ℤ → NanoMessage → NanoMessage
settle failed errno m = record m { error = if failed then errno else pos 0 }

module _ (N : Nn) where
  -- The wrapper and the state of the library.
  abbrev pub Nano : Type 0
  Nano = NanoMessage × N.State

  unfoldable pub socket : Nano → ℤ × Nano
  socket (m, s) =
      let (h, s') = N.socket m.family m.protocol s in
      (h, (settle (eq_ℤ h (negsuc 0)) (N.errno s') (record m { handle = h }), s'))

  unfoldable pub connect : Bytes → Nano → ℤ × Nano
  connect address (m, s) =
      let (r, s') = N.connect m.handle address s in (r, (settle (negative r) (N.errno s') m, s'))

  unfoldable pub bind : Bytes → Nano → ℤ × Nano
  bind address (m, s) =
      let (r, s') = N.bind m.handle address s in (r, (settle (negative r) (N.errno s') m, s'))

  unfoldable pub getsockoption : ℤ → ℤ → Nano → (ℤ × Bytes) × Nano
  getsockoption level option (m, s) =
      let (r, v, s') = N.getsockopt m.handle level option s in
      ((r, v), (settle (eq_ℤ r (negsuc 0)) (N.errno s') m, s'))

  unfoldable pub setsockoption : ℤ → ℤ → Bytes → Nano → ℤ × Nano
  setsockoption level option value (m, s) =
      let (r, s') = N.setsockopt m.handle level option value s in
      (r, (settle (negative r) (N.errno s') m, s'))

  -- EBADF and ETERM are no errors here.
  unfoldable pub close : Nano → Nano
  close (m, s) =
      let (r, s') = N.close m.handle s in
      (
        settle
            (not (eq_ℤ r (pos 0))
              && (not (eq_ℤ (N.errno s') ebadf) && not (eq_ℤ (N.errno s') eterm)))
            (N.errno s') m,
        s',
      )

  -- A message that is sent in part is EMSGSIZE.
  unfoldable pub send : Bytes → Nano → Nano
  send buf (m, s) =
      let (r, s') = N.send m.handle buf s in
      (
        if negative r
            then settle true (N.errno s') m
            else settle (not (eq_ℤ r (pos (length buf)))) emsgsize m,
        s',
      )

  unfoldable pub recv : ℕ → Nano → (ℤ × Bytes) × Nano
  recv bufsize (m, s) =
      let (r, b, s') = N.recv m.handle (some bufsize) s in
      ((r, b), (settle (negative r) (N.errno s') m, s'))

  unfoldable pub recv_msg : Nano → (ℤ × Bytes) × Nano
  recv_msg (m, s) =
      let (r, b, s') = N.recv m.handle none s in ((r, b), (settle (negative r) (N.errno s') m, s'))

  -- The message behind the topic, and an empty one for an error. `none` is the exception that
  -- std::string throws for a message that is shorter than the topic.
  unfoldable pub recv_string : Nano → Option Bytes × Nano
  unfolding recv_msg
  recv_string (m, s) =
      let ((r, b), (m', s')) = recv_msg (m, s) in
      if negative r
      then (some [], (settle true (N.errno s') m', s'))
      else if ltb (length b) m'.read_offset
      then (none, (m', s'))
      else (some (drop m'.read_offset b), (settle false (pos 0) m', s'))

  -- A message that is dropped leaves its size as the error.
  unfoldable pub drop_message : ℤ → Nano → Nano
  drop_message err (m, s) =
      let (r, b, s') = N.recv m.handle (some 1024) s in
      (
        if negative r && not (eq_ℤ err (N.errno s'))
            then settle true (N.errno s') m
            else if not (negative r)
            then record m { error = r }
            else settle false (pos 0) m,
        s',
      )

  -- NanoPubSub::NanoPubSub
  unfoldable pub nano_pub_sub : ℤ → N.State → Nano
  unfolding new socket
  nano_pub_sub protocol s = (socket (new protocol, s)).1

  -- NanoPub::NanoPub; the address is kept too.
  unfoldable pub nano_publisher : Bytes → N.State → Bytes × Nano
  unfolding nano_pub_sub bind
  nano_publisher address s = (address, (bind address (nano_pub_sub nn_pub s)).1)

  -- NanoSub::NanoSub; the topic is kept too.
  unfoldable pub nano_subscriber : Bytes → Bytes → N.State → Bytes × Nano
  unfolding nano_pub_sub setsockoption connect
  nano_subscriber address topic s =
      let (m, s1) = nano_pub_sub nn_sub s in
      let (r, n) =
        setsockoption nn_sub nn_sub_subscribe topic (record m { read_offset = length topic }, s1) in
      (topic, if negative r then n else (connect address n).1)
