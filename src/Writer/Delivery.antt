-- ===== src/Writer/Delivery.antt =====
-- From a sender to a reader.
use mathlib.Core.Path.{subst, ap₂}
use mathlib.Core.List.{Memᴰ}
use wacs.Prelude.{
  ℕ, ◌<◌, ◌%◌, ◌^◌, ◌≡◌, refl, ap, ◌∙◌, sym, true, false, not, ◌&&◌, ℤ, pos, Option, some, List,
  arith, length, ltb_ℤ, pos_part,
}
use wacs.Layout.{Bytes, LogEntry, LogKey, LogData, swap16, sizeof_log_entry}
use wacs.LogEntries.{hton_log_entry}
use wacs.Lmdb.{Lmdb, mdb_success}
use wacs.Lmdb.Contract.{Contract, IsRoomy}
use wacs.Db.Query.{OnLog, feed}
use wacs.Db.Put.{put_log}
use wacs.Db.Read.{query, read_log}
use wacs.Db.Read.Exact.{Yields}
use wacs.Db.Integrity.Items.{Holds}
use wacs.Db.Integrity.Delivered.{put_log-read_log}
use wacs.Mq.{Nn, negative}
use wacs.Mq.Sender.{log_entry_bytes, log_entry_at}
use wacs.Mq.Sent.{packet_at}
use wacs.Writer.{Writer, Round, turn}

module _ {L : Lmdb} {N : Nn} where
  turn_stores :
      (accept_socket : ℤ) (t : Round) (c : Writer L N)
      → negative (N.recv accept_socket (some sizeof_log_entry) c.nn).0 ≡ false
      → (turn accept_socket t c).world
        ≡ (put_log t.key_pad t.data_pad t.now
            (log_entry_at t.past (N.recv accept_socket (some sizeof_log_entry) c.nn).1)
            (pos_part (N.recv accept_socket (some sizeof_log_entry) c.nn).0)
            c.world).1
  unfolding turn
  turn_stores accept_socket t c ok = rw ok refl

  -- A round that receives the packet of an entry runs putLog on it.
  turn_receives :
      (accept_socket : ℤ) (t : Round) (c : Writer L N) (e : LogEntry)
      → (N.recv accept_socket (some sizeof_log_entry) c.nn).0 ≡ pos sizeof_log_entry
      → (N.recv accept_socket (some sizeof_log_entry) c.nn).1 ≡ log_entry_bytes (hton_log_entry e)
      → length e.sa ≡ 6
      → (turn accept_socket t c).world
        ≡ (put_log t.key_pad t.data_pad t.now (hton_log_entry e) sizeof_log_entry c.world).1
  turn_receives accept_socket t c e size got six =
      turn_stores accept_socket t c (ap negative size)
      ∙ ap₂ (λ p n. (put_log t.key_pad t.data_pad t.now p n c.world).1)
          (ap (log_entry_at t.past) got ∙ packet_at t.past e six) (ap pos_part size)

same_device : (x : ℕ) → x < 2 ^ 16 → swap16 (swap16 x) ≡ x
unfolding swap16
same_device x small = omega (arith, small)

same_signal : (x : ℕ) → swap16 (swap16 x) % 256 ≡ x % 256
unfolding swap16
same_signal x = omega arith

handed_back :
    (e : LogEntry) (now : ℕ)
    → e.device_id < 2 ^ 16
    → ◌≡◌ {A = LogKey × Option LogData}
        (
          record { sa = (hton_log_entry e).sa; dt = now },
          some (record {
            device_id = swap16 (hton_log_entry e).device_id;
            ssi_signal = swap16 (hton_log_entry e).ssi_signal % 256;
          }),
        )
        (
          record { sa = e.sa; dt = now },
          some (record { device_id = e.device_id; ssi_signal = e.ssi_signal % 256 }),
        )
unfolding hton_log_entry
handed_back e now small = λ i. (
  record { sa = e.sa; dt = now },
  some (record {
    device_id = same_device e.device_id small i;
    ssi_signal = same_signal e.ssi_signal i;
  }),
)

-- An entry that is sent, whose packet the writer receives and stores with the answer 0 at a 32-bit time
-- in a database in order that does not fill up, is delivered: with more fuel than items, readLog on
-- the writer's database, for the first bytes of its address, fewer than six, and a range that
-- includes the time, ends with an error code, or its callback has been called, until it asked to
-- stop, on a list of records that has the address, the time, the device and the signal of the entry.
pub sent-read_log :
    {L : Lmdb} {N : Nn} (C : Contract L) (R : IsRoomy L) {E : Type 0} (accept_socket : ℤ)
    (t : Round) (c : Writer L N) (e : LogEntry) (past : Bytes → ℕ → ℕ) (pad fuel : ℕ) (f : OnLog E)
    (x : E) (n : ℕ) (start finish : ℤ)
    → (N.recv accept_socket (some sizeof_log_entry) c.nn).0 ≡ pos sizeof_log_entry
    → (N.recv accept_socket (some sizeof_log_entry) c.nn).1 ≡ log_entry_bytes (hton_log_entry e)
    → (put_log t.key_pad t.data_pad t.now (hton_log_entry e) sizeof_log_entry c.world).0
      ≡ mdb_success
    → Holds (C.view c.world.lib)
    → length e.sa ≡ 6
    → e.device_id < 2 ^ 16
    → t.now < 2 ^ 32
    → n < 6
    → (not (ltb_ℤ (query (some e.sa) (pos n) start finish).finish (pos t.now))
        && not (ltb_ℤ (pos t.now) (query (some e.sa) (pos n) start finish).start))
      ≡ true
    → length (C.view (turn accept_socket t c).world.lib).committed < fuel
    → (ds : List (LogKey × Option LogData)) × Memᴰ
        (
          record { sa = e.sa; dt = t.now },
          some (record { device_id = e.device_id; ssi_signal = e.ssi_signal % 256 }),
        )
        ds
      × Yields
          (read_log past pad fuel
            (some e.sa)
            (pos n)
            start
            finish
            (some f)
            (some x)
            (turn accept_socket t c).world).0
          (feed f ds x)
unfolding hton_log_entry
sent-read_log C R accept_socket t c e past pad fuel f x n start finish size got stored h six device
      small few hit enough =
    let w = (turn accept_socket t c).world in
    let same = turn_receives accept_socket t c e size got six in
    let (ds, there, yields) =
      put_log-read_log C R past pad t.key_pad t.data_pad fuel t.now sizeof_log_entry
        (hton_log_entry e) f x n start finish c.world h six small few hit stored
        (subst (λ v. length (C.view v.lib).committed < fuel) same enough) in
    (
      ds,
      subst (λ r. Memᴰ r ds) (handed_back e t.now device) there,
      subst
          (λ v.
            Yields (read_log past pad fuel (some e.sa) (pos n) start finish (some f) (some x) v).0
              (feed f ds x))
          (sym same) yields,
    )
