-- ===== src/Db/Loop.antt =====
-- The `do { … } while (mdb_cursor_get(…, MDB_NEXT) == MDB_SUCCESS)` loops of dblog.cpp: a body that
-- asks to go on or to leave, on fuel, and the list recursion that it amounts to.
use wacs.Prelude.{
  ℕ, zero, suc, ◌<◌, ◌≡◌, refl, true, false, Option, none, some, List, [], ◌∷◌, arith, length, eq_ℤ,
  Bool-cases, inl, inr, ℤ, ap, ◌∙◌, ◌⊎◌, if◌then◌else◌,
}
use wacs.Lmdb.{Lmdb, next, Item, mdb_success}
use wacs.Lmdb.Shelf.{Shelf, advance}
use wacs.Lmdb.Contract.{Contract, found, go_to}
use wacs.Db.Monad.{M, World, cursor_get, pure, ◌>>=◌}

-- `break` is `stop`; the end of the body and `continue` are `more`.
pub data Next (E : Type 0) : Type 0 where
  stop more : E → Next E

module _ {L : Lmdb} {E : Type 0} (cursor : ℕ) (body : Item → E → M L (Next E)) where
  unfoldable pub cursor_loop : ℕ → Item → E → M L (Option E)
  cursor_loop zero i e = pure none
  cursor_loop (suc fuel) i e = do
    r ← body i e
    elim r [
      | stop e' ↦ pure (some e')
      | more e' ↦ do
        x ← cursor_get cursor next
        elim (eq_ℤ x.0 mdb_success) [ true ↦ cursor_loop fuel x.1 e' | false ↦ pure (some e') ]
    ]

-- One round of the loop, by what its body and the cursor answer.
module _ {L : Lmdb} {E : Type 0} (cursor : ℕ) (body : Item → E → M L (Next E)) (fuel : ℕ) (i : Item)
    (e e' : E) (w w' : World L) where
  pub cursor_loop_stops :
      body i e w ≡ (stop e', w') → cursor_loop cursor body (suc fuel) i e w ≡ (some e', w')
  unfolding cursor_loop
  cursor_loop_stops p = ground (arith, p)

  pub cursor_loop_ends :
      body i e w ≡ (more e', w')
      → eq_ℤ (cursor_get cursor next w').0.0 mdb_success ≡ false
      → cursor_loop cursor body (suc fuel) i e w ≡ (some e', (cursor_get cursor next w').1)
  unfolding cursor_loop
  cursor_loop_ends p h = ground (arith, p, h)

  pub cursor_loop_goes_on :
      (j : Item)
      → body i e w ≡ (more e', w')
      → eq_ℤ (cursor_get cursor next w').0.0 mdb_success ≡ true
      → (cursor_get cursor next w').0.1 ≡ j
      → cursor_loop cursor body (suc fuel) i e w
        ≡ cursor_loop cursor body fuel j e' (cursor_get cursor next w').1
  unfolding cursor_loop
  cursor_loop_goes_on j p h k = ground (arith, p, h, k)

-- The same walk over a list of items.
unfoldable pub walk : {E : Type 0} → (Item → E → Next E) → List Item → E → E
walk step [] e = e
walk step (i ∷ is) e = elim (step i e) [ stop e' ↦ e' | more e' ↦ walk step is e' ]

Next-cases : {E : Type 0} (n : Next E) → ((e : E) × (n ≡ stop e)) ⊎ ((e : E) × (n ≡ more e))
Next-cases (stop e) = inl (e, refl)
Next-cases (more e) = inr (e, refl)

-- What MDB_NEXT gives, on the abstract view.
advance_nil : (v : Shelf) → v.ahead ≡ [] → (advance v).here ≡ none
unfolding advance
advance_nil v h = ground arith

advance_cons :
    (v : Shelf) (a : Item) (as' : List Item)
    → v.ahead ≡ a ∷ as'
    → ((advance v).here ≡ some a) × ((advance v).ahead ≡ as')
unfolding advance
advance_cons v a as' h = ground arith

found-eq-none : (r : ℤ) (i : Item) → found r i ≡ none → eq_ℤ r mdb_success ≡ false
found-eq-none r i h = ground arith

pub found-eq-some :
    (r : ℤ) (i j : Item) → found r i ≡ some j → (eq_ℤ r mdb_success ≡ true) × (i ≡ j)
found-eq-some r i j h = elim (Bool-cases (eq_ℤ r mdb_success)) [
  | inl t ↦ (t, cc (ap (λ b. if b then some i else none) t))
  | inr t ↦ cc (ap (λ b. if b then some i else none) t)
]

module _ {L : Lmdb} (C : Contract L) (c : ℕ) (s : L.State) where
  pub next_nil : (C.view s).ahead ≡ [] → eq_ℤ (L.cursor_get c next s).0 mdb_success ≡ false
  unfolding go_to
  next_nil h =
      found-eq-none (L.cursor_get c next s).0 (L.cursor_get c next s).1
        (C.get_found c next s ∙ advance_nil (C.view s) h)

  pub next_cons :
      (a : Item) (as' : List Item)
      → (C.view s).ahead ≡ a ∷ as'
      → (eq_ℤ (L.cursor_get c next s).0 mdb_success ≡ true)
        × ((L.cursor_get c next s).1 ≡ a)
        × ((C.view (L.cursor_get c next s).2).ahead ≡ as')
  unfolding go_to
  next_cons a as' h =
      let got =
        found-eq-some (L.cursor_get c next s).0 (L.cursor_get c next s).1 a
          (C.get_found c next s ∙ (advance_cons (C.view s) a as' h).0) in
      (
        got.0,
        got.1,
        ap (λ (v : Shelf). v.ahead) (C.get_view c next s) ∙ (advance_cons (C.view s) a as' h).1,
      )

-- A body that acts as a pure step and leaves what is ahead of the cursor alone makes the loop a
-- walk over the item under the cursor and the items ahead: with more fuel than items it ends.
module _ {L : Lmdb} (C : Contract L) {E : Type 0} (c : ℕ) (body : Item → E → M L (Next E))
    (step : Item → E → Next E)
    (body_step : (i : Item) (e : E) (w : World L) → (body i e w).0 ≡ step i e)
    (body_ahead : (i : Item) (e : E) (w : World L)
      → (C.view (body i e w).1.lib).ahead ≡ (C.view w.lib).ahead) where
  pub cursor_loop-eq-walk :
      (fuel : ℕ) (as' : List Item) (i : Item) (e : E) (w : World L)
      → (C.view w.lib).ahead ≡ as'
      → length as' < fuel
      → (cursor_loop c body fuel i e w).0 ≡ some (walk step (i ∷ as') e)
  unfolding cursor_loop walk cursor_get
  cursor_loop-eq-walk zero as' i e w h lt = absurd (omega arith)
  cursor_loop-eq-walk (suc fuel) [] i e w h lt =
      ground (arith, body_step i e w, next_nil C c (body i e w).1.lib (body_ahead i e w ∙ h))
  cursor_loop-eq-walk (suc fuel) (a ∷ as') i e w h lt =
      let got = next_cons C c (body i e w).1.lib a as' (body_ahead i e w ∙ h) in
      elim (Next-cases (step i e)) [
        | inl (e', p) ↦ ground (arith, body_step i e w, p)
        | inr (e', p) ↦ ground (
          arith,
          body_step i e w,
          p,
          got.0,
          got.1,
          cursor_loop-eq-walk fuel as' a e' (cursor_get c next (body i e w).1).1 got.2
              (omega arith),
        )
      ]
