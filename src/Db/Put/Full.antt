-- ===== src/Db/Put/Full.antt =====
-- What a map that fills up in the middle of putLog does.
use wacs.Prelude.{ℕ, ◌≡◌, ◌≢◌, ◌∙◌, ap, false, inl, inr, Bool-cases, List, arith, ltb}
use wacs.Layout.{Bytes, LogEntry, sizeof_log_entry}
use wacs.Lmdb.{Lmdb, Item, mdb_success, mdb_map_full}
use wacs.Lmdb.Contract.{Contract}
use wacs.Lmdb.Shelf.{Shelf, committed-at_start}
use wacs.Db.Monad.{World, txn_begin, txn_commit, put}
use wacs.Db.Env.{process_map_full}
use wacs.Db.Query.{fails}
use wacs.Db.Transaction.{
  Stands, Committed, begin-Stands, commit-Committed, put-Stands, process_map_full-Stands,
}
use wacs.Db.Put.{put_or_grow, commit_or_grow, put_log}
use wacs.Db.Put.Stores.{put_item, stored_log, stored_probe, neq_ℤ}

module _ {L : Lmdb} (C : Contract L) (old : List Item) where
  -- A put that fails leaves what is committed alone.
  put_failed-Committed :
      (k v : Bytes) (w : World L)
      → Committed C old w
      → (put k v w).0 ≢ mdb_success
      → Committed C old (put k v w).1
  unfolding put
  put_failed-Committed k v w e bad =
      ap (λ (u : Shelf). u.committed) (C.put_failed_view w.db.txn w.db.dbi k v w.lib bad) ∙ e

module _ {L : Lmdb} (C : Contract L)
    (commit_fits : (t : ℕ) (s : L.State) → (L.txn_commit t s).0 ≢ mdb_map_full)
    (old : List Item) where
  put_or_grow_stored :
      (i : Item) (w : World L) → (put i.0 i.1 w).0 ≡ mdb_success → put_or_grow i w ≡ put i.0 i.1 w
  unfolding put_or_grow
  put_or_grow_stored (k, v) w h = ground (arith, h)

  -- A put that grows the map leaves its own item, on top of what was committed alone.
  put_or_grow_full :
      (i : Item) (w : World L)
      → Committed C old w
      → (put i.0 i.1 w).0 ≡ mdb_map_full
      → fails (put_or_grow i w).0 ≡ false
      → Stands C old (put_item i old) (put_or_grow i w).1
  unfolding put_or_grow
  put_or_grow_full (k, v) w e full ok =
      let w1 = (put k v w).1 in
      let kept = put_failed-Committed C old k v w e (ground (arith, full)) in
      let grown = process_map_full-Stands C old w1 kept in
      elim (Bool-cases (fails (process_map_full w1).0)) [
        | inl bad ↦ absurd (ground (arith, full, bad, ok))
        | inr good ↦
            ground (arith, full, good, ok, put-Stands C old k v (process_map_full w1).1 grown)
      ]

  plain : (w : World L) → commit_or_grow w ≡ txn_commit w
  unfolding commit_or_grow txn_commit
  plain w = rw (neq_ℤ (L.txn_commit w.db.txn w.lib).0 mdb_map_full (commit_fits w.db.txn w.lib))

  -- If the map is full at the last probe, and never at a commit, and putLog answers 0, the log entry that was put
  -- before is lost: the last probe alone is stored.
  pub put_log-full_loses :
      (key_pad data_pad now size : ℕ) (packet : LogEntry) (w : World L)
      → Committed C old w
      → ((put
            (stored_log key_pad data_pad now packet).0
            (stored_log key_pad data_pad now packet).1
            (txn_begin w).1).0
          ≡ mdb_success)
      → ((put
            (stored_probe now packet).0
            (stored_probe now packet).1
            (put
              (stored_log key_pad data_pad now packet).0
              (stored_log key_pad data_pad now packet).1
              (txn_begin w).1).1).0
          ≡ mdb_map_full)
      → (put_log key_pad data_pad now packet size w).0 ≡ mdb_success
      → (C.view (put_log key_pad data_pad now packet size w).1.lib).committed
        ≡ put_item (stored_probe now packet) old
  unfolding put_log stored_log stored_probe
  put_log-full_loses key_pad data_pad now size packet w e first full ok =
      let log = stored_log key_pad data_pad now packet in
      let probe = stored_probe now packet in
      let w1 = (txn_begin w).1 in
      let p1 = put log.0 log.1 w1 in
      let p2 = put_or_grow probe p1.1 in
      let same = put_or_grow_stored log w1 first in
      elim (Bool-cases (ltb size sizeof_log_entry)) [
        | inl small ↦ absurd (ground (arith, small, ok))
        | inr big ↦ elim (Bool-cases (fails (txn_begin w).0)) [
          | inl bad ↦ absurd (ground (arith, big, bad, ok))
          | inr good ↦ elim (Bool-cases (fails p2.0)) [
            | inl bad2 ↦ absurd (ground (arith, big, good, first, same, bad2, ok))
            | inr ok2 ↦
                let h1 =
                  put-Stands C old log.0 log.1 w1 (begin-Stands C old w e good)
                    (ground (arith, first)) in
                let h2 = put_or_grow_full probe p1.1 h1.below full ok2 in
                elim (Bool-cases (fails (txn_commit p2.1).0)) [
                  | inl bad3 ↦
                      absurd (ground (arith, big, good, first, same, ok2, bad3, plain p2.1, ok))
                  | inr ok3 ↦ ground (
                    arith,
                    big,
                    good,
                    same,
                    ok2,
                    ok3,
                    plain p2.1,
                    ap (λ (v : Shelf). v.committed) (commit-Committed C old p2.1 h2 ok3)
                        ∙ committed-at_start (put_item probe old) (put_item probe old),
                  )
                ]
          ]
        ]
      ]
