-- ===== src/Db/Remove/Results.antt =====
-- What rmLog answers and leaves in the database, by its own choice of the items.
use wacs.Prelude.{
  ℕ, ◌<◌, ◌≡◌, refl, false, Option, List, ◌++◌, ℤ, arith, length, inl, inr, Bool-cases,
}
use wacs.Layout.{Bytes}
use wacs.ErrorCodes.{errcode_lmdb_txn_begin}
use wacs.Lmdb.{Lmdb, set_range, Item, mdb_success}
use wacs.Lmdb.Shelf.{at_start}
use wacs.Lmdb.Contract.{Contract}
use wacs.Db.Monad.{World, txn_begin, cursor_open, cursor_get}
use wacs.Db.Query.{fails}
use wacs.Db.Transaction.{Committed, begin-Committed}
use wacs.Db.Read.{query}
use wacs.Db.Read.Walk.{from_key}
use wacs.Db.Remove.{rm_log_decide, rm_seek_key, rm_log}
use wacs.Db.Remove.Loop.{removed, left}
use wacs.Db.Remove.Outcome.{
  until_key, Removes, begin_fails, open_fails, search_fails, commit_count-Removes,
  commit_nothing-Committed, at_start-Stands, fails-neq, seek-Stands, open_at_start, loop_after_seek,
}

-- rmLog by its own choice of the items: it removes them from those at or behind its key.
pub rm_log-Removes :
    {L : Lmdb} (C : Contract L)
    (deletes : (c : ℕ) (s : L.State) → (L.cursor_del c s).0 ≡ mdb_success) (past : Bytes → ℕ → ℕ)
    (pad fuel : ℕ) (sa : Option Bytes) (sa_size start finish : ℤ) (old : List Item) (w : World L)
    → Committed C old w
    → length old < fuel
    → Removes C
        (rm_seek_key pad sa sa_size start)
        w
        (removed
          (rm_log_decide past (query sa sa_size start finish))
          (from_key (rm_seek_key pad sa sa_size start) old)
          0)
        (until_key (rm_seek_key pad sa sa_size start) old
          ++ left
              (rm_log_decide past (query sa sa_size start finish))
              (from_key (rm_seek_key pad sa sa_size start) old))
        old
        (rm_log past pad fuel sa sa_size start finish w)
unfolding rm_log
rm_log-Removes {L} C deletes past pad fuel sa sa_size start finish old w e lt =
    elim (Bool-cases (fails b.0)) [
      | inl p ↦ rw p (
          inr (
            errcode_lmdb_txn_begin,
            (λ z. absurd (ground (arith, z))),
            begin_fails p,
            refl,
            begin-Committed C old w e,
          ))
      | inr p ↦ elim (Bool-cases (fails c.0.0)) [
        | inl q ↦ rw p (
            rw q (
              inr (
                c.0.0,
                fails-neq C c.0.0 q,
                open_fails q,
                refl,
                commit_nothing-Committed C old c.1 (at_start-Stands C c.1 old (v p)),
              )))
        | inr q ↦ elim (Bool-cases (fails g.0.0)) [
          | inl o ↦ rw p (
              rw q (
                rw o (
                  inr (
                    g.0.0,
                    fails-neq C g.0.0 o,
                    search_fails o,
                    refl,
                    commit_nothing-Committed C old g.1
                        (seek-Stands C (rm_seek_key pad sa sa_size start) c.0.1 old c.1 (v p)),
                  ))))
          | inr o ↦
              let looped =
                loop_after_seek C deletes (rm_log_decide past (query sa sa_size start finish)) fuel
                  (rm_seek_key pad sa sa_size start) old c.0.1 c.1 (v p) o lt in
              rw p (
                rw q (
                  rw o (
                    commit_count-Removes C (rm_seek_key pad sa sa_size start) w _ _ _ old _ looped.0
                      looped.1)))
        ]
      ]
    ]
  where
    b : ℤ × World L
    b = txn_begin w

    c : (ℤ × ℕ) × World L
    c = cursor_open b.1

    g : (ℤ × Item) × World L
    g = cursor_get c.0.1 (set_range (rm_seek_key pad sa sa_size start)) c.1

    v : fails b.0 ≡ false → C.view c.1.lib ≡ at_start old old
    v p = open_at_start C old w e p
