-- ===== src/Db/Transaction.antt =====
-- The calls of a transaction on the abstract view of the library.
use mathlib.Core.Path.{ap₂}
use wacs.Prelude.{◌*◌, ℕ, ◌≡◌, ◌≢◌, ap, ◌∙◌, true, false, inl, inr, Bool-cases, ℤ, List, arith}
use wacs.Layout.{Bytes}
use wacs.Lmdb.{Lmdb, Item, mdb_success}
use wacs.Lmdb.Shelf.{Shelf, items, at_start, insert, erase, items-at_start, committed-at_start}
use wacs.Lmdb.Contract.{Contract}
use wacs.Db.Monad.{
  World, txn_begin, txn_commit, txn_abort, put, del, env_create, env_open, env_close, env_info,
  env_set_mapsize, dbi_open, dbi_close,
}
use wacs.Db.Env.{open_db, close_db, process_map_full}
use wacs.Db.Query.{fails}

pub fails-eq-false : (r : ℤ) → fails r ≡ false → r ≡ mdb_success
fails-eq-false r h = ground arith

pub fails-eq-true : (r : ℤ) → fails r ≡ true → r ≢ mdb_success
fails-eq-true r h = ground arith

-- The transaction stands at a list of items, on top of the committed ones.
pub record StandsAt (c is : List Item) (v : Shelf) : Type 0 where
  pub below : v.committed ≡ c
  pub holds : items v ≡ is

pub StandsAt-at_start : (c is : List Item) → StandsAt c is (at_start c is)
StandsAt-at_start c is = record { below = committed-at_start c is; holds = items-at_start c is }

module _ {L : Lmdb} (C : Contract L) (c : List Item) where
  -- The transaction of a caller stands at a list of items.
  abbrev pub Stands : List Item → World L → Type 0
  Stands is w = StandsAt c is (C.view w.lib)

  abbrev pub Committed : World L → Type 0
  Committed w = (C.view w.lib).committed ≡ c

  stands : {is : List Item} (v : Shelf) → v ≡ at_start c is → StandsAt c is v
  stands {is} v e = rw e (StandsAt-at_start c is)

  pub begin-Stands :
      (w : World L) → Committed w → fails (txn_begin w).0 ≡ false → Stands c (txn_begin w).1
  unfolding txn_begin
  begin-Stands w e ok =
      stands _ (C.begin_view w.db.env w.lib (fails-eq-false _ ok) ∙ ap (λ l. at_start l l) e)

  pub begin-Committed : (w : World L) → Committed w → Committed (txn_begin w).1
  unfolding txn_begin
  begin-Committed w e = elim (Bool-cases (fails (L.txn_begin w.db.env w.lib).0)) [
    | inl bad ↦
        ap (λ (v : Shelf). v.committed) (C.begin_failed_view w.db.env w.lib (fails-eq-true _ bad))
        ∙ e
    | inr ok ↦ (begin-Stands w e ok).below
  ]

  pub commit-Committed :
      {is : List Item} (w : World L)
      → Stands is w
      → fails (txn_commit w).0 ≡ false
      → C.view (txn_commit w).1.lib ≡ at_start is is
  unfolding txn_commit
  commit-Committed w h ok =
      C.commit_view w.db.txn w.lib (fails-eq-false _ ok) ∙ ap (λ l. at_start l l) h.holds

  pub commit_failed-Stands :
      {is : List Item} (w : World L)
      → Stands is w
      → fails (txn_commit w).0 ≡ true
      → Stands c (txn_commit w).1
  unfolding txn_commit
  commit_failed-Stands w h bad =
      stands _
        (C.commit_failed_view w.db.txn w.lib (fails-eq-true _ bad) ∙ ap (λ l. at_start l l) h.below)

  -- A commit of nothing new.
  commit_nothing-Stands : (w : World L) → Stands c w → Stands c (txn_commit w).1
  commit_nothing-Stands w h = elim (Bool-cases (fails (txn_commit w).0)) [
    | inl bad ↦ commit_failed-Stands w h bad
    | inr ok ↦ stands _ (commit-Committed w h ok)
  ]

  pub abort-Stands : (w : World L) → Committed w → Stands c (txn_abort w).1
  unfolding txn_abort
  abort-Stands w e = stands _ (C.abort_view w.db.txn w.lib ∙ ap (λ l. at_start l l) e)

  pub put-Stands :
      {is : List Item} (k v : Bytes) (w : World L)
      → Stands is w
      → fails (put k v w).0 ≡ false
      → Stands (insert k v is) (put k v w).1
  unfolding put
  put-Stands k v w h ok = stands _ (
      C.put_view w.db.txn w.db.dbi k v w.lib (fails-eq-false _ ok)
      ∙ ap₂ (λ l m. at_start l (insert k v m)) h.below h.holds)

  kept : {is : List Item} (u v : Shelf) → v ≡ u → StandsAt c is u → StandsAt c is v
  kept u v e h = rw e h

  pub put_failed-Stands :
      {is : List Item} (k v : Bytes) (w : World L)
      → Stands is w
      → fails (put k v w).0 ≡ true
      → Stands is (put k v w).1
  unfolding put
  put_failed-Stands k v w h bad =
      kept _ _ (C.put_failed_view w.db.txn w.db.dbi k v w.lib (fails-eq-true _ bad)) h

  pub del-Stands :
      {is : List Item} (k : Bytes) (w : World L)
      → Stands is w
      → fails (del k w).0 ≡ false
      → Stands (erase k is) (del k w).1
  unfolding del
  del-Stands k w h ok = stands _ (
      C.del_view w.db.txn w.db.dbi k w.lib (fails-eq-false _ ok)
      ∙ ap₂ (λ l m. at_start l (erase k m)) h.below h.holds)

  pub del_failed-Stands :
      {is : List Item} (k : Bytes) (w : World L)
      → Stands is w
      → fails (del k w).0 ≡ true
      → Stands is (del k w).1
  unfolding del
  del_failed-Stands k w h bad =
      kept _ _ (C.del_failed_view w.db.txn w.db.dbi k w.lib (fails-eq-true _ bad)) h

  begin_nothing-Stands : (w : World L) → Stands c w → Stands c (txn_begin w).1
  unfolding txn_begin
  begin_nothing-Stands w h = elim (Bool-cases (fails (L.txn_begin w.db.env w.lib).0)) [
    | inl bad ↦ kept _ _ (C.begin_failed_view w.db.env w.lib (fails-eq-true _ bad)) h
    | inr ok ↦ begin-Stands w h.below ok
  ]

  create-Stands : (w : World L) → Stands c w → Stands c (env_create w).1
  unfolding env_create
  create-Stands w h = kept _ _ (C.create_view w.lib) h

  env_open-Stands : (w : World L) → Stands c w → Stands c (env_open w).1
  unfolding env_open
  env_open-Stands w h = kept _ _ (C.env_open_view w.db.env w.db.path w.db.flags w.db.mode w.lib) h

  dbi_open-Stands : (w : World L) → Stands c w → Stands c (dbi_open w).1
  unfolding dbi_open
  dbi_open-Stands w h = kept _ _ (C.dbi_open_view w.db.txn w.lib) h

  open_db-Stands : (w : World L) → Stands c w → Stands c (open_db w).1
  unfolding open_db
  open_db-Stands w h =
      let h1 = create-Stands w h in
      let h2 = env_open-Stands (env_create w).1 h1 in
      let h3 = begin_nothing-Stands (env_open (env_create w).1).1 h2 in
      let h4 = dbi_open-Stands (txn_begin (env_open (env_create w).1).1).1 h3 in
      let h5 = commit_nothing-Stands (dbi_open (txn_begin (env_open (env_create w).1).1).1).1 h4 in
      ground (arith, h1, h2, h3, h4, h5)

  info-Stands : (w : World L) → Stands c w → Stands c (env_info w).1
  unfolding env_info
  info-Stands w h = kept _ _ (C.info_view w.db.env w.lib) h

  close-Stands : (w : World L) → Stands c w → Stands c (env_close w).1
  unfolding env_close
  close-Stands w h = kept _ _ (C.close_view w.db.env w.lib) h

  close_db-Stands : (w : World L) → Stands c w → Stands c (close_db w).1
  unfolding close_db
  close_db-Stands w h =
      close-Stands (dbi_close w).1 (kept _ _ (C.dbi_close_view w.db.env w.db.dbi w.lib) h)

  mapsize-Stands : (n : ℕ) (w : World L) → Stands c w → Stands c (env_set_mapsize n w).1
  unfolding env_set_mapsize
  mapsize-Stands n w h = kept _ _ (C.mapsize_view w.db.env n w.lib) h

  -- After processMapFull, whatever it answers, the transaction holds nothing but what was committed.
  pub process_map_full-Stands : (w : World L) → Committed w → Stands c (process_map_full w).1
  unfolding process_map_full
  process_map_full-Stands w e =
      let w1 = (txn_abort w).1 in
      let h1 = abort-Stands w e in
      let i = env_info w1 in
      let h2 = info-Stands w1 h1 in
      let w3 = (close_db i.1).1 in
      let h3 = close_db-Stands i.1 h2 in
      let w4 = (env_create w3).1 in
      let h4 = create-Stands w3 h3 in
      let w5 = (env_set_mapsize (i.0.1 * 2) w4).1 in
      let h5 = mapsize-Stands (i.0.1 * 2) w4 h4 in
      let w6 = (env_open w5).1 in
      let h6 = env_open-Stands w5 h5 in
      let w7 = (env_close w6).1 in
      let h7 = close-Stands w6 h6 in
      let w8 = (open_db w7).1 in
      let h8 = open_db-Stands w7 h7 in
      ground (arith, h1, h2, h3, h4, h8, begin_nothing-Stands w8 h8)
