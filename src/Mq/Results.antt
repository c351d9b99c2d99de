-- ===== src/Mq/Results.antt =====
-- What the wrapper's error says, and what a subscriber reads.
use wacs.Prelude.{
  ◌≡◌, ◌≢◌, ◌↔◌, refl, true, false, ℤ, pos, some, [], ◌∷◌, ◌++◌, length, drop, ltb, arith,
  length-append,
}
use wacs.Layout.{Bytes}
use wacs.Mq.{Nn, negative, nn_sub, nn_sub_subscribe}
use wacs.Mq.Nano.{
  Nano, connect, setsockoption, recv_msg, recv_string, nano_pub_sub, nano_subscriber,
}

-- The documented behaviour of errno and of nn_connect: a call that fails leaves a code that is not 0.
pub record SetsErrno (N : Nn) : Type 0 where
  pub after_connect :
      (h : ℤ) (a : Bytes) (s : N.State)
      → negative (N.connect h a s).0 ≡ true
      → N.errno (N.connect h a s).1 ≢ pos 0
  pub after_setsockopt :
      (h l o : ℤ) (v : Bytes) (s : N.State)
      → negative (N.setsockopt h l o v s).0 ≡ true
      → N.errno (N.setsockopt h l o v s).1 ≢ pos 0

module _ (N : Nn) (E : SetsErrno N) where
  -- The subscription that a subscriber makes first.
  abbrev pub subscribes : Bytes → N.State → ℤ × Nano N
  subscribes topic s = setsockoption N nn_sub nn_sub_subscribe topic (
    record (nano_pub_sub N nn_sub s).0 { read_offset = length topic },
    (nano_pub_sub N nn_sub s).1,
  )

  -- Over a library whose failing calls set errno, a subscriber's error is 0 after it is made exactly if
  -- it has subscribed to its topic and then connected: a failure of the first call is not hidden by a
  -- success of the second.
  pub nano_subscriber-error :
      (address topic : Bytes) (s : N.State)
      → ((nano_subscriber N address topic s).1.0.error ≡ pos 0) ↔ (
          (negative (subscribes topic s).0 ≡ false)
          × (negative (connect N address (subscribes topic s).1).0 ≡ false))
  unfolding nano_subscriber setsockoption connect
  nano_subscriber-error address topic s =
      let made = nano_pub_sub N nn_sub s in
      let subscribed = N.setsockopt made.0.handle nn_sub nn_sub_subscribe topic made.1 in
      ground (
        arith,
        E.after_setsockopt made.0.handle nn_sub nn_sub_subscribe topic made.1,
        E.after_connect made.0.handle address subscribed.1,
      )

drop-append : (t d : Bytes) → drop (length t) (t ++ d) ≡ d
drop-append [] d = refl
drop-append (b ∷ t) d = drop-append t d

not_short : (t d : Bytes) → ltb (length (t ++ d)) (length t) ≡ false
not_short t d = ground (arith, length-append t d)

subscriber_offset :
    (N : Nn) (address topic : Bytes) (s : N.State)
    → (nano_subscriber N address topic s).1.0.read_offset ≡ length topic
unfolding nano_subscriber setsockoption connect
subscriber_offset N address topic s = ground arith

-- A subscriber that receives a message of its topic reads what stands behind the topic, and its error
-- is 0.
pub recv_string-topic :
    (N : Nn) (address topic d : Bytes) (s : N.State)
    → negative (recv_msg N (nano_subscriber N address topic s).1).0.0 ≡ false
    → (recv_msg N (nano_subscriber N address topic s).1).0.1 ≡ topic ++ d
    → ((recv_string N (nano_subscriber N address topic s).1).0 ≡ some d)
      × ((recv_string N (nano_subscriber N address topic s).1).1.0.error ≡ pos 0)
unfolding recv_string recv_msg
recv_string-topic N address topic d s ok got =
    let n = (nano_subscriber N address topic s).1 in
    ground
      (arith, ok, got, subscriber_offset N address topic s, drop-append topic d, not_short topic d)
