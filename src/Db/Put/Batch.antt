-- ===== src/Db/Put/Batch.antt =====
-- What putLogEntries leaves in the database.
use mathlib.Core.Path.{subst}
use wacs.Prelude.{
  ℕ, suc, ◌+◌, ◌≡◌, false, inl, inr, Bool-cases, ℤ, pos, List, [], ◌∷◌, arith, if◌then◌else◌,
  length,
}
use wacs.Layout.{LogRecord}
use wacs.ErrorCodes.{errcode_lmdb_txn_commit}
use wacs.Lmdb.{Lmdb, Item}
use wacs.Lmdb.Contract.{Contract, IsRoomy}
use wacs.Db.Monad.{World, txn_begin, txn_commit, txn_abort}
use wacs.Db.Query.{fails}
use wacs.Db.Transaction.{Stands, Committed, begin-Stands, begin-Committed, abort-Stands}
use wacs.Db.Put.{log_item, probe_item, put_or_grow, put_records, put_log_entries}
use wacs.Db.Put.Stores.{
  put_item, IsAtomic, commit_code-IsAtomic, put_or_grow-Stands, put_or_grow_failed,
}

-- The log entry of a record, and then its last probe.
unfoldable pub record_log : ℕ → ℕ → LogRecord → Item
record_log key_pad data_pad n =
    log_item key_pad data_pad n.sa n.dt
      (record { device_id = n.device_id; ssi_signal = n.ssi_signal })

unfoldable pub record_probe : LogRecord → Item
record_probe n = probe_item n.sa n.dt

-- The items after all records are stored in turn.
unfoldable pub store_records : ℕ → ℕ → List LogRecord → List Item → List Item
unfolding record_log record_probe
store_records key_pad data_pad [] is = is
store_records key_pad data_pad (n ∷ ns) is =
    store_records key_pad data_pad ns
      (put_item (record_probe n) (put_item (record_log key_pad data_pad n) is))

module _ {L : Lmdb} (C : Contract L) (R : IsRoomy L) (old : List Item) (key_pad data_pad : ℕ) where
  aborted : {is : List Item} (u : World L) → Stands C old is u → Committed C old (txn_abort u).1
  aborted u h = (abort-Stands C old u h.below).below

  recount :
      (c d : ℕ) (new : List Item) (x : ℤ × World L)
      → c ≡ d
      → IsAtomic C (pos c) new old x
      → IsAtomic C (pos d) new old x
  recount c d new x e h = subst (λ n. IsAtomic C (pos n) new old x) e h

  put_records-IsAtomic :
      (ns : List LogRecord) (c : ℕ) (is : List Item) (w : World L)
      → Stands C old is w
      → IsAtomic C
          (pos (c + length ns))
          (store_records key_pad data_pad ns is)
          old
          (put_records key_pad data_pad ns c w)
  unfolding put_records store_records
  put_records-IsAtomic [] c is w h =
      recount c (c + 0) is
        (if fails (txn_commit w).0 then errcode_lmdb_txn_commit else pos c, (txn_commit w).1)
        (omega arith) (commit_code-IsAtomic C (pos c) is old w h)
  put_records-IsAtomic (n ∷ ns) c is w h = elim (Bool-cases (fails p1.0)) [
    | inl bad1 ↦ ground (arith, bad1, aborted p1.1 (put_or_grow_failed C R old log w h bad1))
    | inr ok1 ↦ elim (Bool-cases (fails p2.0)) [
      | inl bad2 ↦
          ground
            (arith, ok1, bad2, aborted p2.1 (put_or_grow_failed C R old probe p1.1 (s1 ok1) bad2))
      | inr ok2 ↦ rw ok1 (
          rw ok2 (
            recount (c + 1 + length ns) (c + suc (length ns))
              (store_records key_pad data_pad ns (put_item probe (put_item log is)))
              (put_records key_pad data_pad ns (c + 1) p2.1) (omega arith)
              (put_records-IsAtomic ns (c + 1) (put_item probe (put_item log is)) p2.1
                (put_or_grow-Stands C R old probe p1.1 (s1 ok1) ok2))))
    ]
  ]
    where
      log : Item
      log = record_log key_pad data_pad n

      probe : Item
      probe = record_probe n

      p1 : ℤ × World L
      p1 = put_or_grow log w

      p2 : ℤ × World L
      p2 = put_or_grow probe p1.1

      s1 : fails p1.0 ≡ false → Stands C old (put_item log is) p1.1
      s1 ok1 = put_or_grow-Stands C R old log w h ok1

  -- putLogEntries is atomic if the map does not fill up: it answers the number of records and the
  -- log entry and the last probe of every record are committed, in order, or it answers an error and
  -- nothing has changed.
  pub put_log_entries-IsAtomic :
      (ns : List LogRecord) (w : World L)
      → Committed C old w
      → IsAtomic C
          (pos (length ns))
          (store_records key_pad data_pad ns old)
          old
          (put_log_entries key_pad data_pad ns w)
  unfolding put_log_entries
  put_log_entries-IsAtomic ns w e = elim (Bool-cases (fails (txn_begin w).0)) [
    | inl bad ↦ ground (arith, bad, begin-Committed C old w e)
    | inr ok ↦
        ground
          (arith, ok, put_records-IsAtomic ns 0 old (txn_begin w).1 (begin-Stands C old w e ok))
  ]
