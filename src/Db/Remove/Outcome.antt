-- ===== src/Db/Remove/Outcome.antt =====
-- What a removal answers and leaves in the database, for any choice of the items.
use mathlib.Core.Path.{subst, transport}
use wacs.Prelude.{
  ◌⊎◌, ◌≢◌, ℕ, ◌<◌, ◌≡◌, refl, ap, ◌∙◌, sym, true, false, Option, none, some, List, [], ◌∷◌, ◌++◌,
  ℤ, pos, arith, length, inl, inr, Bool-cases, if◌then◌else◌,
}
use wacs.Layout.{Bytes}
use wacs.ErrorCodes.{errcode_lmdb_txn_begin, errcode_lmdb_txn_commit}
use wacs.Lmdb.{Lmdb, set_range, Item, mdb_success}
use wacs.Lmdb.Shelf.{
  Shelf, at_start, seek, key_lt, cons_before, here_list, items, committed-at_start,
}
use wacs.Lmdb.Contract.{Contract}
use wacs.Db.Monad.{World, txn_begin, txn_commit, cursor_open, cursor_get}
use wacs.Db.Loop.{cursor_loop}
use wacs.Db.Query.{fails}
use wacs.Db.Transaction.{
  StandsAt, StandsAt-at_start, Stands, Committed, commit-Committed, commit_failed-Stands,
}
use wacs.Db.Read.Walk.{from_key, set_range_view, set_range_found, begin_lem, length-from_key}
use wacs.Db.Remove.{Action, remove_body, commit_count}
use wacs.Db.Remove.Loop.{removed, left, shelf_at, cursor_loop-removes}

-- The items below a key.
unfoldable pub until_key : Bytes → List Item → List Item
until_key k [] = []
until_key k ((j, v) ∷ is) = let rest = until_key k is in if key_lt j k then (j, v) ∷ rest else []

-- Where MDB_SET_RANGE finds an item.
pub seek-shelf_at :
    (k : Bytes) (c is : List Item) (i : Item)
    → (seek k c is).here ≡ some i
    → (seek k c is ≡ shelf_at c (until_key k is) (some i) (seek k c is).ahead)
      × (i ∷ (seek k c is).ahead ≡ from_key k is)
unfolding seek until_key at_start cons_before from_key
seek-shelf_at k c [] i h = absurd (ground (arith, h))
seek-shelf_at k c ((j, v) ∷ is) i h = elim (Bool-cases (key_lt j k)) [
  | inl lt ↦ ground (arith, lt, h, seek-shelf_at k c is i)
  | inr ge ↦ ground (arith, ge, h)
]

-- The answer of the search for a key in a new transaction.
abbrev pub search : {L : Lmdb} → Bytes → World L → ℤ
search k w = let c = cursor_open (txn_begin w).1 in (cursor_get c.0.1 (set_range k) c.1).0.0

-- A call has failed, and the code is the one that is answered for it: the begin of the transaction, the
-- opening of the cursor, the search for the key, or the commit of a transaction in which the new items
-- stand.
pub data Refuses {L : Lmdb} (C : Contract L) (k : Bytes) (w : World L) (new old : List Item)
    : ℤ → Type 0 where
  begin_fails : fails (txn_begin w).0 ≡ true → Refuses C k w new old errcode_lmdb_txn_begin
  open_fails :
      fails (cursor_open (txn_begin w).1).0.0 ≡ true
      → Refuses C k w new old (cursor_open (txn_begin w).1).0.0
  search_fails : fails (search k w) ≡ true → Refuses C k w new old (search k w)
  commit_fails :
      (v : World L)
      → Stands C old new v
      → fails (txn_commit v).0 ≡ true
      → Refuses C k w new old errcode_lmdb_txn_commit

module _ {L : Lmdb} (C : Contract L) where
  -- A removal has ended: with the count, and the items that it removes are gone from what was
  -- committed, or a call has failed, whose code is answered and is not 0, and nothing has changed.
  abbrev pub Removes : Bytes → World L → ℕ → List Item → List Item → Option ℤ × World L → Type 0
  Removes k w n new old (o, v) =
      ((o ≡ some (pos n)) × ((C.view v.lib).committed ≡ new))
      ⊎ ((r : ℤ) × (r ≢ mdb_success)
          × Refuses C k w new old r
          × (o ≡ some r)
          × ((C.view v.lib).committed ≡ old))

  -- One removal, described in equal words.
  pub Removes-same :
      {k j : Bytes} {n m : ℕ} {new left_over : List Item} (w : World L) (old : List Item)
      (r : Option ℤ × World L)
      → k ≡ j
      → n ≡ m
      → new ≡ left_over
      → Removes k w n new old r
      → Removes j w m left_over old r
  Removes-same w old r e f g = transport (λ i. Removes (e i) w (f i) (g i) old r)

  pub at_start-Stands :
      (w : World L) (old : List Item) → C.view w.lib ≡ at_start old old → Stands C old old w
  at_start-Stands w old v = subst (StandsAt old old) (sym v) (StandsAt-at_start old old)

  pub commit_nothing-Committed :
      (old : List Item) (w : World L) → Stands C old old w → Committed C old (txn_commit w).1
  commit_nothing-Committed old w h = elim (Bool-cases (fails (txn_commit w).0)) [
    | inl bad ↦ (commit_failed-Stands C old w h bad).below
    | inr ok ↦
        ap (λ (v : Shelf). v.committed) (commit-Committed C old w h ok) ∙ committed-at_start old old
  ]

  pub fails-neq : (r : ℤ) → fails r ≡ true → r ≢ mdb_success
  fails-neq r h e = ground (arith, h, e)

  pub commit_count-Removes :
      (k : Bytes) (begun : World L) (o : Option ℕ) (n : ℕ) (new old : List Item) (w : World L)
      → o ≡ some n
      → Stands C old new w
      → Removes k begun n new old (commit_count o w)
  unfolding commit_count
  commit_count-Removes k begun none n new old w e h = absurd (ground (arith, e))
  commit_count-Removes k begun (some m) n new old w e h =
      elim (Bool-cases (fails (txn_commit w).0)) [
        | inl bad ↦ rw bad (
            inr (
              errcode_lmdb_txn_commit,
              (λ z. absurd (ground (arith, z))),
              commit_fails w h bad,
              refl,
              (commit_failed-Stands C old w h bad).below,
            ))
        | inr ok ↦ rw ok (
            inl (
              ground (arith, e),
              ap (λ (v : Shelf). v.committed) (commit-Committed C old w h ok)
                  ∙ committed-at_start new new,
            ))
      ]

  seek-StandsAt : (k : Bytes) (c is : List Item) → StandsAt c is (seek k c is)
  unfolding seek cons_before at_start here_list items
  seek-StandsAt k c [] = record { below = refl; holds = refl }
  seek-StandsAt k c ((j, v) ∷ is) =
      let h = seek-StandsAt k c is in
      elim (Bool-cases (key_lt j k)) [
        | inl lt ↦ rw lt (record { below = h.below; holds = ap (λ t. (j, v) ∷ t) h.holds })
        | inr ge ↦ rw ge (record { below = refl; holds = refl })
      ]

  pub seek-Stands :
      (k : Bytes) (c : ℕ) (old : List Item) (w : World L)
      → C.view w.lib ≡ at_start old old
      → Stands C old old (cursor_get c (set_range k) w).1
  unfolding cursor_get
  seek-Stands k c old w v =
      subst (StandsAt old old) (sym (set_range_view C c k old w.lib v)) (seek-StandsAt k old old)

  pub open_at_start :
      (old : List Item) (w : World L)
      → Committed C old w
      → fails (txn_begin w).0 ≡ false
      → C.view (cursor_open (txn_begin w).1).1.lib ≡ at_start old old
  unfolding cursor_open
  open_at_start old w e ok =
      C.open_view (txn_begin w).1.db.txn (txn_begin w).1.db.dbi (txn_begin w).1.lib
      ∙ begin_lem C w ok
      ∙ ap (λ l. at_start l l) e

  module _ (deletes : (c : ℕ) (s : L.State) → (L.cursor_del c s).0 ≡ mdb_success)
      (decide : Item → Action) (fuel : ℕ) (k : Bytes) (old : List Item) where
    -- The loop entered at a key.
    pub loop_after_seek :
        (c : ℕ) (w : World L)
        → C.view w.lib ≡ at_start old old
        → fails (cursor_get c (set_range k) w).0.0 ≡ false
        → length old < fuel
        → ((cursor_loop c
              (remove_body decide c)
              fuel
              (cursor_get c (set_range k) w).0.1
              0
              (cursor_get c (set_range k) w).1).0
            ≡ some (removed decide (from_key k old) 0))
          × Stands C old
              (until_key k old ++ left decide (from_key k old))
              (cursor_loop c
                (remove_body decide c)
                fuel
                (cursor_get c (set_range k) w).0.1
                0
                (cursor_get c (set_range k) w).1).1
    unfolding cursor_get
    loop_after_seek c w v ok lt =
        let here = set_range_found C c k old w.lib v ok in
        let i = (L.cursor_get c (set_range k) w.lib).1 in
        let at_item = seek-shelf_at k old old i here in
        let r =
          cursor_loop-removes C deletes c decide old fuel (seek k old old).ahead (until_key k old) i
            0 (cursor_get c (set_range k) w).1 (set_range_view C c k old w.lib v ∙ at_item.0)
            (omega (arith, lt, ap length at_item.1, length-from_key k old)) in
        subst
          (λ l.
            ((cursor_loop c (remove_body decide c) fuel i 0 (cursor_get c (set_range k) w).1).0
              ≡ some (removed decide l 0))
            × Stands C old (until_key k old ++ left decide l)
                (cursor_loop c (remove_body decide c) fuel i 0 (cursor_get c (set_range k) w).1).1)
          at_item.1 r
