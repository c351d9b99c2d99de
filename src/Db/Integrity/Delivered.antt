-- ===== src/Db/Integrity/Delivered.antt =====
-- What putLog has stored, readLog delivers.
use mathlib.Core.Path.{subst}
use mathlib.Core.List.{Memᴰ}
use mathlib.Core.List.Memᴰ
use wacs.Prelude.{
  ℕ, ◌%◌, ◌<◌, ◌^◌, ◌≡◌, refl, sym, ap, ◌∙◌, true, not, ◌&&◌, inl, inr, ℤ, pos, List, map, Option,
  some, length, take, arith, ltb_ℤ,
}
use wacs.Layout.{Bytes, LogEntry, LogKey, LogData, swap16, log_key_bytes, last_probe_key_bytes}
use wacs.LogEntries.{ntoh_log_entry}
use wacs.Lmdb.{Lmdb, Item, mdb_success}
use wacs.Lmdb.Contract.{Contract, IsRoomy}
use wacs.Lmdb.Shelf.{key_lt}
use wacs.Lmdb.Order.{starts_with}
use wacs.Db.Monad.{World}
use wacs.Db.Query.{OnLog, feed}
use wacs.Db.Stored.{Entry, IsEntry, IsBehind, entry_key, entry_item}
use wacs.Db.Put.{put_log, log_item, probe_item}
use wacs.Db.Put.Stores.{put_item, stored_log, stored_probe, put_log-IsAtomic}
use wacs.Db.Read.{query, read_log}
use wacs.Db.Read.Exact.{Yields, matches}
use wacs.Db.Integrity.Items.{Holds}
use wacs.Db.Integrity.Reach.{Reach, logged, here, after}
use wacs.Db.Integrity.Parts.{Parts, parts, reached-read_log}
use wacs.Db.Integrity.Members.{
  Memᴰ-insert, Memᴰ-insert_other, mapped, All-Memᴰ, handed, matches-Memᴰ, starts_with-take,
  same_item,
}

-- The entry of a packet.
unfoldable pub packet_entry : ℕ → ℕ → ℕ → LogEntry → Entry
unfolding ntoh_log_entry
packet_entry key_pad data_pad now packet =
    let entry = ntoh_log_entry packet in
    record {
      sa = entry.sa;
      dt = now;
      entry_data = record { device_id = entry.device_id; ssi_signal = entry.ssi_signal % 256 };
      key_pad = key_pad;
      data_pad = data_pad;
    }

packet-IsEntry :
    (key_pad data_pad now : ℕ) (packet : LogEntry)
    → length packet.sa ≡ 6
    → now < 2 ^ 32
    → IsEntry (packet_entry key_pad data_pad now packet)
unfolding packet_entry ntoh_log_entry swap16
packet-IsEntry key_pad data_pad now packet six small = record {
  six = six;
  dt_u32 = small;
  device_u16 = omega arith;
  signal_i8 = omega arith;
}

packet_item :
    (key_pad data_pad now : ℕ) (packet : LogEntry)
    → stored_log key_pad data_pad now packet ≡ entry_item (packet_entry key_pad data_pad now packet)
unfolding stored_log packet_entry log_item entry_item entry_key
packet_item key_pad data_pad now packet = refl

log_below_probe :
    (key_pad data_pad now : ℕ) (packet : LogEntry)
    → key_lt (stored_log key_pad data_pad now packet).0 (stored_probe now packet).0 ≡ true
unfolding stored_log stored_probe log_item probe_item key_lt log_key_bytes last_probe_key_bytes
log_below_probe key_pad data_pad now packet = refl

not_behind : (n : Entry) → IsBehind (entry_item n) → ⊥
unfolding entry_item entry_key log_key_bytes
not_behind n (t, r, e, above) = ground (arith, e, above)

-- An entry whose item is in the database is one of its log entries, up to what readers see.
among_logs :
    (n : Entry) (is : List Item) (p : Parts is)
    → IsEntry n
    → Memᴰ (entry_item n) is
    → (m : Entry) × Memᴰ m p.logs × (handed n ≡ handed m)
among_logs n is p v d =
    elim (Memᴰ.append_cases (map entry_item p.logs) (subst (Memᴰ (entry_item n)) p.splits d)) [
      | inl found ↦
          let (m, at, e) = mapped (entry_item n) p.logs found in
          (m, at, same_item n m v (All-Memᴰ IsEntry m p.logs p.valid at) e)
      | inr late ↦ absurd (not_behind n (All-Memᴰ IsBehind (entry_item n) p.others p.behind late))
    ]

module _ {L : Lmdb} (C : Contract L) (R : IsRoomy L) where
  stored_there :
      (key_pad data_pad now size : ℕ) (packet : LogEntry) (w : World L)
      → (put_log key_pad data_pad now packet size w).0 ≡ mdb_success
      → Memᴰ
          (stored_log key_pad data_pad now packet)
          (C.view (put_log key_pad data_pad now packet size w).1.lib).committed
  stored_there key_pad data_pad now size packet w ok =
      let log = stored_log key_pad data_pad now packet in
      let probe = stored_probe now packet in
      let old = (C.view w.lib).committed in
      elim (put_log-IsAtomic C R old key_pad data_pad now size packet w refl) [
        | inl done ↦ subst (Memᴰ log) (sym done.1) (
            Memᴰ-insert_other log probe.0 probe.1 (put_item log old)
              (log_below_probe key_pad data_pad now packet) (Memᴰ-insert log.0 log.1 old))
        | inr failed ↦ absurd (ground (arith, ok, failed.0))
      ]

  -- A packet of six address bytes that putLog has stored, that is, with the answer 0, at a 32-bit time,
  -- in a database in order that does not fill up, is delivered: with more fuel than items, readLog
  -- for the first bytes of its address, fewer than six, and a range that includes the time ends with
  -- an error code, or its callback has been called, until it asked to stop, on a list of records that
  -- has the packet's address, the time, and the device and the signal in the host's byte order.
  pub put_log-read_log :
      {E : Type 0} (past : Bytes → ℕ → ℕ) (pad key_pad data_pad fuel now size : ℕ)
      (packet : LogEntry) (f : OnLog E) (e : E) (n : ℕ) (start finish : ℤ) (w : World L)
      → Holds (C.view w.lib)
      → length packet.sa ≡ 6
      → now < 2 ^ 32
      → n < 6
      → (not (ltb_ℤ (query (some packet.sa) (pos n) start finish).finish (pos now))
          && not (ltb_ℤ (pos now) (query (some packet.sa) (pos n) start finish).start))
        ≡ true
      → (put_log key_pad data_pad now packet size w).0 ≡ mdb_success
      → length (C.view (put_log key_pad data_pad now packet size w).1.lib).committed < fuel
      → (ds : List (LogKey × Option LogData)) × Memᴰ
          (
            record { sa = packet.sa; dt = now },
            some (record {
              device_id = swap16 packet.device_id;
              ssi_signal = swap16 packet.ssi_signal % 256;
            }),
          )
          ds
        × Yields
            (read_log past pad fuel
              (some packet.sa)
              (pos n)
              start
              finish
              (some f)
              (some e)
              (put_log key_pad data_pad now packet size w).1).0
            (feed f ds e)
  unfolding packet_entry ntoh_log_entry
  put_log-read_log past pad key_pad data_pad fuel now size packet f e n start finish w h six small
        few hit ok enough =
      let n0 = packet_entry key_pad data_pad now packet in
      let w' = (put_log key_pad data_pad now packet size w).1 in
      let r : Reach w w' = after here (logged key_pad data_pad now packet size w six) in
      let p = parts C w h w' r in
      let q = query (some packet.sa) (pos n) start finish in
      let there =
        subst (λ i. Memᴰ i (C.view w'.lib).committed) (packet_item key_pad data_pad now packet)
          (stored_there key_pad data_pad now size packet w ok) in
      let (m, at, same) =
        among_logs n0 (C.view w'.lib).committed p
          (packet-IsEntry key_pad data_pad now packet six small) there in
      (
        matches q (take n packet.sa) p.logs,
        subst (λ x. Memᴰ x (matches q (take n packet.sa) p.logs)) (sym same)
            (matches-Memᴰ q (take n packet.sa) m p.logs
              (ap
                  (λ (x : LogKey × Option LogData).
                    starts_with (take n packet.sa) x.0.sa
                    && not (ltb_ℤ q.finish (pos x.0.dt))
                    && not (ltb_ℤ (pos x.0.dt) q.start))
                  (sym same)
                ∙ rw (starts_with-take n packet.sa) hit)
              at),
        reached-read_log C past pad fuel packet.sa f e n start finish w h w' r six few enough,
      )
