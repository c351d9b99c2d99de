-- ===== src/Db/Put/Stores.antt =====
-- What putLog and putLogEntries leave in the database.
use wacs.Prelude.{
  ℕ, ◌%◌, ◌<◌, neg_part, ◌≡◌, ◌≢◌, ◌⊎◌, refl, ap, ◌∙◌, sym, true, false, inl, inr, Bool-cases, ℤ,
  List, eq_ℤ, ltb, arith, if◌then◌else◌,
}
use wacs.Layout.{LogEntry, sizeof_log_entry}
use wacs.ErrorCodes.{errcode_lmdb_txn_commit}
use wacs.LogEntries.{ntoh_log_entry}
use wacs.Lmdb.{Lmdb, Item, mdb_success, mdb_map_full}
use wacs.Lmdb.Shelf.{Shelf, insert, committed-at_start}
use wacs.Lmdb.Contract.{Contract, IsRoomy}
use wacs.Db.Monad.{World, txn_begin, txn_commit, txn_abort, put}
use wacs.Db.Query.{fails}
use wacs.Db.Transaction.{
  Stands, Committed, begin-Stands, begin-Committed, commit-Committed, commit_failed-Stands,
  abort-Stands, put-Stands, put_failed-Stands,
}
use wacs.Db.Put.{log_item, probe_item, put_or_grow, commit_or_grow, put_log}

-- mdb_put of an item.
abbrev pub put_item : Item → List Item → List Item
put_item (k, v) is = insert k v is

-- The items that putLog stores for a packet.
unfoldable pub stored_log : ℕ → ℕ → ℕ → LogEntry → Item
unfolding ntoh_log_entry
stored_log key_pad data_pad now packet =
    let entry = ntoh_log_entry packet in
    log_item key_pad data_pad entry.sa now
      (record { device_id = entry.device_id; ssi_signal = entry.ssi_signal % 256 })

unfoldable pub stored_probe : ℕ → LogEntry → Item
unfolding ntoh_log_entry
stored_probe now packet = probe_item (ntoh_log_entry packet).sa now

pub neq_ℤ : (a b : ℤ) → a ≢ b → eq_ℤ a b ≡ false
neq_ℤ a b h = ground arith

module _ {L : Lmdb} (R : IsRoomy L) where
  put_or_grow_roomy : (i : Item) (w : World L) → put_or_grow i w ≡ put i.0 i.1 w
  unfolding put_or_grow put
  put_or_grow_roomy (k, v) w = rw (
      neq_ℤ (L.put w.db.txn w.db.dbi k v w.lib).0 mdb_map_full
        (R.put_fits w.db.txn w.db.dbi k v w.lib))

  commit_or_grow_roomy : (w : World L) → commit_or_grow w ≡ txn_commit w
  unfolding commit_or_grow txn_commit
  commit_or_grow_roomy w =
      rw (neq_ℤ (L.txn_commit w.db.txn w.lib).0 mdb_map_full (R.commit_fits w.db.txn w.lib))

module _ {L : Lmdb} (C : Contract L) where
  -- A call that writes has answered the given code and left the new items committed, or it has
  -- answered a negative code and left what was committed before.
  abbrev pub IsAtomic : ℤ → List Item → List Item → ℤ × World L → Type 0
  IsAtomic code new old (r, w) =
      ((r ≡ code) × ((C.view w.lib).committed ≡ new))
      ⊎ ((0 < neg_part r) × ((C.view w.lib).committed ≡ old))

  -- The end of a transaction that stands at `new`.
  pub commit_code-IsAtomic :
      (code : ℤ) (new old : List Item) (w : World L)
      → Stands C old new w
      → IsAtomic code new old
          (if fails (txn_commit w).0 then errcode_lmdb_txn_commit else code, (txn_commit w).1)
  commit_code-IsAtomic code new old w h = elim (Bool-cases (fails (txn_commit w).0)) [
    | inl bad ↦ rw bad (inr (omega arith, (commit_failed-Stands C old w h bad).below))
    | inr ok ↦ rw ok (
        inl (
          refl,
          ap (λ (v : Shelf). v.committed) (commit-Committed C old w h ok)
              ∙ committed-at_start new new,
        ))
  ]

  module _ (R : IsRoomy L) (old : List Item) where
    pub put_or_grow-Stands :
        {is : List Item} (i : Item) (w : World L)
        → Stands C old is w
        → fails (put_or_grow i w).0 ≡ false
        → Stands C old (put_item i is) (put_or_grow i w).1
    put_or_grow-Stands {is} (k, v) w h ok =
        let same = put_or_grow_roomy R (k, v) w in
        rw same (put-Stands C old k v w h (ap (λ (x : ℤ × World L). fails x.0) (sym same) ∙ ok))

    pub put_or_grow_failed :
        {is : List Item} (i : Item) (w : World L)
        → Stands C old is w
        → fails (put_or_grow i w).0 ≡ true
        → Stands C old is (put_or_grow i w).1
    put_or_grow_failed {is} (k, v) w h bad =
        let same = put_or_grow_roomy R (k, v) w in
        rw same
          (put_failed-Stands C old k v w h (ap (λ (x : ℤ × World L). fails x.0) (sym same) ∙ bad))

    -- putLog is atomic if the map does not fill up: it answers 0 and the log entry and the last
    -- probe of the packet are both committed, or it answers an error and nothing has changed.
    pub put_log-IsAtomic :
        (key_pad data_pad now size : ℕ) (packet : LogEntry) (w : World L)
        → Committed C old w
        → IsAtomic mdb_success
            (put_item
              (stored_probe now packet)
              (put_item (stored_log key_pad data_pad now packet) old))
            old
            (put_log key_pad data_pad now packet size w)
    unfolding put_log stored_log stored_probe
    put_log-IsAtomic key_pad data_pad now size packet w e =
        elim (Bool-cases (ltb size sizeof_log_entry)) [
          | inl small ↦ ground (arith, small, e)
          | inr big ↦ elim (Bool-cases (fails (txn_begin w).0)) [
            | inl bad ↦ ground (arith, big, bad, begin-Committed C old w e)
            | inr ok ↦ elim (Bool-cases (fails p1.0)) [
              | inl bad1 ↦
                  ground
                    (arith, big, ok, bad1, aborted p1.1 (put_or_grow_failed log w1 (s1 ok) bad1))
              | inr ok1 ↦ elim (Bool-cases (fails p2.0)) [
                | inl bad2 ↦ ground (
                  arith,
                  big,
                  ok,
                  ok1,
                  bad2,
                  aborted p2.1 (put_or_grow_failed probe p1.1 (s2 ok ok1) bad2),
                )
                | inr ok2 ↦ ground (
                  arith,
                  big,
                  ok,
                  ok1,
                  ok2,
                  commit_or_grow_roomy R p2.1,
                  commit_code-IsAtomic mdb_success (put_item probe (put_item log old)) old p2.1
                      (put_or_grow-Stands probe p1.1 (s2 ok ok1) ok2),
                )
              ]
            ]
          ]
        ]
      where
        log : Item
        log = stored_log key_pad data_pad now packet

        probe : Item
        probe = stored_probe now packet

        w1 : World L
        w1 = (txn_begin w).1

        p1 : ℤ × World L
        p1 = put_or_grow log w1

        p2 : ℤ × World L
        p2 = put_or_grow probe p1.1

        s1 : fails (txn_begin w).0 ≡ false → Stands C old old w1
        s1 = begin-Stands C old w e

        s2 :
            fails (txn_begin w).0 ≡ false
            → fails p1.0 ≡ false
            → Stands C old (put_item log old) p1.1
        s2 ok ok1 = put_or_grow-Stands log w1 (s1 ok) ok1

        aborted :
            {is : List Item} (u : World L) → Stands C old is u → Committed C old (txn_abort u).1
        aborted u h = (abort-Stands C old u h.below).below
