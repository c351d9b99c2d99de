-- ===== src/Db/Remove/Loop.antt =====
-- The loop that removes as it walks, on the abstract view.
use mathlib.Core.Path.{subst}
use wacs.Prelude.{
  ◌⊎◌, ℕ, zero, suc, ◌+◌, ◌<◌, ◌≡◌, refl, ap, ◌∙◌, Option, none, some, List, [], ◌∷◌, ◌++◌, arith,
  length, inl, inr,
}
use wacs.Lmdb.{Lmdb, next, Item, mdb_success}
use wacs.Lmdb.Shelf.{Shelf, items, here_list, advance, remove_here}
use wacs.Lmdb.Contract.{Contract, go_to}
use wacs.Db.Monad.{World, cursor_get, cursor_del}
use wacs.Db.Loop.{
  stop, more, cursor_loop, cursor_loop_stops, cursor_loop_ends, cursor_loop_goes_on, next_nil,
  next_cons,
}
use wacs.Db.Transaction.{StandsAt}
use wacs.Db.Remove.{Action, leave, skip, remove, remove_body}

-- How many items a walk over a list removes, counted on from a number, and the items it leaves.
unfoldable pub removed : (Item → Action) → List Item → ℕ → ℕ
removed decide [] n = n
removed decide (i ∷ is) n =
    let on = removed decide is n in
    let more_on = removed decide is (n + 1) in
    elim (decide i) [ leave ↦ n | skip ↦ on | remove ↦ more_on ]

unfoldable pub left : (Item → Action) → List Item → List Item
left decide [] = []
left decide (i ∷ is) =
    let on = left decide is in elim (decide i) [ leave ↦ i ∷ is | skip ↦ i ∷ on | remove ↦ on ]

removed_nil : (decide : Item → Action) (n : ℕ) → removed decide [] n ≡ n
unfolding removed
removed_nil decide n = refl

left_nil : (decide : Item → Action) → left decide [] ≡ []
unfolding left
left_nil decide = refl

module _ (decide : Item → Action) (i : Item) (is : List Item) (n : ℕ) where
  pub list_leaves :
      decide i ≡ leave → (removed decide (i ∷ is) n ≡ n) × (left decide (i ∷ is) ≡ i ∷ is)
  unfolding removed left
  list_leaves p = ground (arith, p)

  pub list_skips :
      decide i ≡ skip
      → (removed decide (i ∷ is) n ≡ removed decide is n)
        × (left decide (i ∷ is) ≡ i ∷ left decide is)
  unfolding removed left
  list_skips p = ground (arith, p)

  pub list_removes :
      decide i ≡ remove
      → (removed decide (i ∷ is) n ≡ removed decide is (n + 1))
        × (left decide (i ∷ is) ≡ left decide is)
  unfolding removed left
  list_removes p = ground (arith, p)

Action-cases : (a : Action) → (a ≡ leave) ⊎ ((a ≡ skip) ⊎ (a ≡ remove))
Action-cases leave = inl refl
Action-cases skip = inr (inl refl)
Action-cases remove = inr (inr refl)

abbrev pub shelf_at : List Item → List Item → Option Item → List Item → Shelf
shelf_at c b h a = record { committed = c; before = b; here = h; ahead = a }

append_nil : (b : List Item) → b ++ [] ≡ b
append_nil [] = refl
append_nil (x ∷ b) = ap (λ t. x ∷ t) (append_nil b)

pub append_assoc : (a b c : List Item) → (a ++ b) ++ c ≡ a ++ (b ++ c)
append_assoc [] b c = refl
append_assoc (x ∷ a) b c = ap (λ t. x ∷ t) (append_assoc a b c)

-- MDB_NEXT past an item that is kept, and past one that has been removed.
step_on :
    (c b a : List Item) (i j : Item)
    → advance (shelf_at c b (some i) (j ∷ a)) ≡ shelf_at c (b ++ i ∷ []) (some j) a
unfolding advance here_list
step_on c b a i j = refl

step_over :
    (c b a : List Item) (j : Item) → advance (shelf_at c b none (j ∷ a)) ≡ shelf_at c b (some j) a
unfolding advance here_list
step_over c b a j = ap (λ t. shelf_at c t (some j) a) (append_nil b)

last_kept :
    (c b : List Item) (i : Item) → StandsAt c (b ++ i ∷ []) (advance (shelf_at c b (some i) []))
unfolding advance here_list items
last_kept c b i = record { below = refl; holds = append_nil (b ++ i ∷ []) }

last_removed : (c b : List Item) → StandsAt c (b ++ []) (advance (shelf_at c b none []))
unfolding advance here_list items
last_removed c b = record { below = refl; holds = append_nil (b ++ []) }

untouched : (c b a : List Item) (i : Item) → StandsAt c (b ++ i ∷ a) (shelf_at c b (some i) a)
unfolding here_list items
untouched c b a i = record { below = refl; holds = refl }

module _ {L : Lmdb} (C : Contract L)
    (deletes : (c : ℕ) (s : L.State) → (L.cursor_del c s).0 ≡ mdb_success) (cur : ℕ)
    (decide : Item → Action) (c : List Item) where
  stands_at : (is : List Item) (u v : Shelf) → v ≡ u → StandsAt c is u → StandsAt c is v
  stands_at is u v e h = rw e h

  regroup : {is js : List Item} {v : Shelf} → is ≡ js → StandsAt c is v → StandsAt c js v
  regroup {is} {js} {v} e h = subst (λ t. StandsAt c t v) e h

  next_view :
      (s : L.State) (u : Shelf) → C.view s ≡ u → C.view (L.cursor_get cur next s).2 ≡ advance u
  unfolding go_to
  next_view s u e = C.get_view cur next s ∙ ap advance e

  del_view :
      (s : L.State) (u : Shelf) → C.view s ≡ u → C.view (L.cursor_del cur s).1 ≡ remove_here u
  del_view s u e = C.cursor_del_view cur s (deletes cur s) ∙ ap remove_here e

  remove_here_lem :
      (b a : List Item) (i : Item) → remove_here (shelf_at c b (some i) a) ≡ shelf_at c b none a
  unfolding remove_here
  remove_here_lem b a i = refl

  body_leaves :
      (i : Item) (n : ℕ) (w : World L)
      → decide i ≡ leave
      → remove_body decide cur i n w ≡ (stop n, w)
  unfolding remove_body
  body_leaves i n w p = ground (arith, p)

  body_skips :
      (i : Item) (n : ℕ) (w : World L)
      → decide i ≡ skip
      → remove_body decide cur i n w ≡ (more n, w)
  unfolding remove_body
  body_skips i n w p = ground (arith, p)

  body_removes :
      (i : Item) (n : ℕ) (w : World L)
      → decide i ≡ remove
      → remove_body decide cur i n w ≡ (more (n + 1), (cursor_del cur w).1)
  unfolding remove_body
  body_removes i n w p = ground (arith, p)

  -- With more fuel than items the loop ends with the count, and what it leaves stands in the
  -- transaction.
  pub cursor_loop-removes :
      (fuel : ℕ) (a b : List Item) (i : Item) (n : ℕ) (w : World L)
      → C.view w.lib ≡ shelf_at c b (some i) a
      → length a < fuel
      → ((cursor_loop cur (remove_body decide cur) fuel i n w).0 ≡ some (removed decide (i ∷ a) n))
        × StandsAt c
            (b ++ left decide (i ∷ a))
            (C.view (cursor_loop cur (remove_body decide cur) fuel i n w).1.lib)
  unfolding cursor_get cursor_del
  cursor_loop-removes zero a b i n w v lt = absurd (omega arith)
  cursor_loop-removes (suc fuel) [] b i n w v lt =
      let gone = del_view w.lib _ v ∙ remove_here_lem b [] i in
      let w' : World L = (cursor_del cur w).1 in
      elim (Action-cases (decide i)) [
        | inl p ↦
            rw (cursor_loop_stops cur (remove_body decide cur) fuel i n n w w (body_leaves i n w p))
              (rw (list_leaves decide i [] n p).0
                (rw (list_leaves decide i [] n p).1 (refl, stands_at _ _ _ v (untouched c b [] i))))
        | inr (inl p) ↦
            rw
              (cursor_loop_ends cur (remove_body decide cur) fuel i n n w w (body_skips i n w p)
                (next_nil C cur w.lib (ap (λ (u : Shelf). u.ahead) v)))
              (rw (list_skips decide i [] n p).0 (
                rw (list_skips decide i [] n p).1 (
                  rw (removed_nil decide n) refl,
                  rw (left_nil decide) (stands_at _ _ _ (next_view w.lib _ v) (last_kept c b i)),
                )))
        | inr (inr p) ↦
            rw
              (cursor_loop_ends cur (remove_body decide cur) fuel i n (n + 1) w w'
                (body_removes i n w p) (next_nil C cur w'.lib (ap (λ (u : Shelf). u.ahead) gone)))
              (rw (list_removes decide i [] n p).0 (
                rw (list_removes decide i [] n p).1 (
                  rw (removed_nil decide (n + 1)) refl,
                  rw (left_nil decide)
                      (stands_at _ _ _ (next_view w'.lib _ gone) (last_removed c b)),
                )))
      ]
  cursor_loop-removes (suc fuel) (j ∷ a) b i n w v lt =
      let gone = del_view w.lib _ v ∙ remove_here_lem b (j ∷ a) i in
      let w' : World L = (cursor_del cur w).1 in
      let kept_next = next_cons C cur w.lib j a (ap (λ (u : Shelf). u.ahead) v) in
      let gone_next = next_cons C cur w'.lib j a (ap (λ (u : Shelf). u.ahead) gone) in
      elim (Action-cases (decide i)) [
        | inl p ↦
            rw (cursor_loop_stops cur (remove_body decide cur) fuel i n n w w (body_leaves i n w p))
              (rw (list_leaves decide i (j ∷ a) n p).0 (
                rw (list_leaves decide i (j ∷ a) n p).1
                  (refl, stands_at _ _ _ v (untouched c b (j ∷ a) i))))
        | inr (inl p) ↦
            rw
              (cursor_loop_goes_on cur (remove_body decide cur) fuel i n n w w j
                (body_skips i n w p) kept_next.0 kept_next.1)
              (rw (list_skips decide i (j ∷ a) n p).0 (
                rw (list_skips decide i (j ∷ a) n p).1 (
                  let r =
                    cursor_loop-removes fuel a (b ++ i ∷ []) j n (cursor_get cur next w).1
                      (next_view w.lib _ v ∙ step_on c b a i j) (omega (arith, lt)) in
                  (r.0, regroup (append_assoc b (i ∷ []) (left decide (j ∷ a))) r.1))))
        | inr (inr p) ↦
            rw
              (cursor_loop_goes_on cur (remove_body decide cur) fuel i n (n + 1) w w' j
                (body_removes i n w p) gone_next.0 gone_next.1)
              (rw (list_removes decide i (j ∷ a) n p).0 (
                rw (list_removes decide i (j ∷ a) n p).1 (
                  cursor_loop-removes fuel a b j (n + 1) (cursor_get cur next w').1
                    (next_view w'.lib _ gone ∙ step_over c b a j) (omega (arith, lt)))))
      ]
