-- ===== src/Db/Notification/Results.antt =====
-- What the notification routines answer and leave in the database.
use mathlib.Core.Path.{ap₂, subst}
use wacs.Prelude.{
  ℕ, ◌<◌, ◌≤◌, suc, zero, ◌≡◌, refl, ap, ◌∙◌, sym, true, false, none, some, List, [], ◌∷◌, ◌++◌, ℤ,
  pos, arith, length, take, inl, inr, Bool-cases, eq_ℤ, ltb, if◌then◌else◌, All,
}
use wacs.Layout.{Bytes}
use wacs.ErrorCodes.{errcode_lmdb_txn_begin}
use wacs.Lmdb.{Lmdb, set_range, Item, mdb_success, mdb_notfound}
use wacs.Lmdb.Shelf.{Shelf, at_start, seek, cons_before, key_lt}
use wacs.Lmdb.Contract.{Contract, found}
use wacs.Lmdb.Order.{Ordered}
use wacs.Db.Monad.{World, txn_begin, cursor_open, cursor_get}
use wacs.Db.Query.{fails}
use wacs.Db.Transaction.{StandsAt, Committed, begin-Committed, abort-Stands}
use wacs.Db.Read.Walk.{from_key, set_range_view}
use wacs.Db.Remove.{Action}
use wacs.Db.Remove.Loop.{removed, left}
use wacs.Db.Remove.Outcome.{
  until_key, Removes, begin_fails, open_fails, search_fails, commit_count-Removes,
  commit_nothing-Committed, at_start-Stands, fails-neq, seek-Stands, open_at_start, loop_after_seek,
}
use wacs.Db.Notification.{notification_key, rm_clamped, rm_notification_decide, rm_notification}
use wacs.Db.Notification.Prefix.{without, count_with, Decides, prefix_walk, rm_notification-Decides}

rm_notification-Decides_each :
    (past : Bytes → ℕ → ℕ) (sa p : Bytes) (n : ℕ) (is : List Item)
    → take n sa ≡ p
    → length p ≡ n
    → n ≤ 6
    → All (λ (i : Item). 7 ≤ length i.0) is
    → All (λ i. Decides (rm_notification_decide past sa n) (notification_key p) i) is
rm_notification-Decides_each past sa p n [] tk len small h = tt
rm_notification-Decides_each past sa p n (i ∷ is) tk len small h = (
  rm_notification-Decides past sa p n i tk len small h.0,
  rm_notification-Decides_each past sa p n is tk len small h.1,
)

append_nil : (is : List Item) → is ++ [] ≡ is
append_nil [] = refl
append_nil (i ∷ is) = ap (λ t. i ∷ t) (append_nil is)

-- MDB_SET_RANGE finds nothing exactly where all items are below the key.
seek-none :
    (k : Bytes) (c is : List Item)
    → (seek k c is).here ≡ none
    → (from_key k is ≡ []) × (until_key k is ≡ is)
unfolding seek from_key until_key at_start cons_before
seek-none k c [] h = (refl, refl)
seek-none k c ((j, v) ∷ is) h = elim (Bool-cases (key_lt j k)) [
  | inl lt ↦ ground (arith, lt, h, seek-none k c is)
  | inr ge ↦ absurd (ground (arith, ge, h))
]

removed_none :
    (decide : Item → Action) (k p : Bytes) (is : List Item)
    → removed decide (from_key k is) 0 ≡ count_with p is
    → until_key k is ++ left decide (from_key k is) ≡ without p is
    → (from_key k is ≡ []) × (until_key k is ≡ is)
    → (count_with p is ≡ 0) × (without p is ≡ is)
unfolding removed left
removed_none decide k p is a b (h, u) = (
  sym a ∙ ap (λ l. removed decide l 0) h,
  sym b ∙ ap₂ (λ l m. l ++ left decide m) u h ∙ append_nil is,
)

found-eq-none : (r : ℤ) (i : Item) → fails r ≡ true → found r i ≡ none
found-eq-none r i h = ground arith

relist : {old is js : List Item} {v : Shelf} → is ≡ js → StandsAt old is v → StandsAt old js v
relist {old} {is} {js} {v} e h = subst (λ l. StandsAt old l v) e h

take_whole : (s : Bytes) (n : ℕ) → length s ≡ n → take n s ≡ s
take_whole [] zero h = refl
take_whole [] (suc n) h = refl
take_whole (b ∷ s) zero h = absurd (omega (arith, h))
take_whole (b ∷ s) (suc n) h = ap (λ t. b ∷ t) (take_whole s n (omega (arith, h)))

clamp : (n : ℕ) → n ≤ 6 → n ≡ (if ltb n 6 then n else 6)
clamp n h = ground (arith, h)

rm_clamped-Removes :
    {L : Lmdb} (C : Contract L)
    (deletes : (c : ℕ) (s : L.State) → (L.cursor_del c s).0 ≡ mdb_success) (past : Bytes → ℕ → ℕ)
    (fuel : ℕ) (sa p : Bytes) (n : ℕ) (old : List Item) (w : World L)
    → take n sa ≡ p
    → length p ≡ n
    → n ≤ 6
    → Ordered old
    → All (λ (i : Item). 7 ≤ length i.0) old
    → Committed C old w
    → length old < fuel
    → Removes C
        (notification_key (take n sa))
        w
        (count_with (notification_key p) old)
        (without (notification_key p) old)
        old
        (rm_clamped past fuel sa n w)
unfolding rm_clamped cursor_get
rm_clamped-Removes {L} C deletes past fuel sa p n old w tk len small ord long e lt =
    elim (Bool-cases (fails b.0)) [
      | inl bad ↦ rw bad (
          inr (
            errcode_lmdb_txn_begin,
            (λ z. absurd (ground (arith, z))),
            begin_fails bad,
            refl,
            begin-Committed C old w e,
          ))
      | inr p0 ↦ elim (Bool-cases (fails c.0.0)) [
        | inl q ↦ rw p0 (
            rw q (
              inr (
                c.0.0,
                fails-neq C c.0.0 q,
                open_fails q,
                refl,
                commit_nothing-Committed C old c.1 (at_start-Stands C c.1 old (v p0)),
              )))
        | inr q ↦ elim (Bool-cases (fails g.0.0)) [
          | inl o ↦
              let unchanged =
                (abort-Stands C old g.1 (seek-Stands C k c.0.1 old c.1 (v p0)).below).below in
              elim (Bool-cases (eq_ℤ g.0.0 mdb_notfound)) [
                | inl nf ↦
                    let none_here =
                      ap (λ (u : Shelf). u.here)
                        (sym (set_range_view C c.0.1 k old c.1.lib (v p0))
                          ∙ C.get_view c.0.1 (set_range k) c.1.lib)
                      ∙ sym (C.get_found c.0.1 (set_range k) c.1.lib)
                      ∙ found-eq-none g.0.0 g.0.1 o in
                    let gone =
                      removed_none decide k (notification_key p) old all.0 all.1
                        (seek-none k old old none_here) in
                    rw p0 (
                      rw q (
                        rw o (
                          rw nf
                            (inl (ap (λ m. some (pos m)) (sym gone.0), unchanged ∙ sym gone.1)))))
                | inr er ↦ rw p0 (
                    rw q (
                      rw o (
                        rw er (inr (g.0.0, fails-neq C g.0.0 o, search_fails o, refl, unchanged)))))
              ]
          | inr o ↦
              let looped = loop_after_seek C deletes decide fuel k old c.0.1 c.1 (v p0) o lt in
              rw p0 (
                rw q (
                  rw o (
                    commit_count-Removes C k w _ (count_with (notification_key p) old)
                      (without (notification_key p) old) old _ (looped.0 ∙ ap some all.0)
                      (relist all.1 looped.1))))
        ]
      ]
    ]
  where
    k : Bytes
    k = notification_key (take n sa)

    decide : Item → Action
    decide = rm_notification_decide past sa n

    all :
        (removed decide (from_key k old) 0 ≡ count_with (notification_key p) old)
        × (until_key k old ++ left decide (from_key k old) ≡ without (notification_key p) old)
    all =
        subst
          (λ x.
            (removed decide (from_key (notification_key x) old) 0
              ≡ count_with (notification_key p) old)
            × (until_key (notification_key x) old ++ left decide (from_key (notification_key x) old)
                ≡ without (notification_key p) old))
          (sym tk)
          (prefix_walk decide (notification_key p) old
            (rm_notification-Decides_each past sa p n old tk len small long) ord)

    b : ℤ × World L
    b = txn_begin w

    c : (ℤ × ℕ) × World L
    c = cursor_open b.1

    g : (ℤ × Item) × World L
    g = cursor_get c.0.1 (set_range k) c.1

    v : fails b.0 ≡ false → C.view c.1.lib ≡ at_start old old
    v ok = open_at_start C old w e ok

-- rmNotification with more fuel than items, over a library whose mdb_cursor_del succeeds and whose
-- items are in key order with keys of at least seven bytes, ends: it answers the number of
-- notifications whose address begins with the given bytes, and exactly those are gone, or it answers
-- another code than 0 and nothing has changed.
pub rm_notification-Removes :
    {L : Lmdb} (C : Contract L)
    (deletes : (c : ℕ) (s : L.State) → (L.cursor_del c s).0 ≡ mdb_success) (past : Bytes → ℕ → ℕ)
    (fuel : ℕ) (sa : Bytes) (n : ℕ) (old : List Item) (w : World L)
    → length sa ≡ n
    → n ≤ 6
    → Ordered old
    → All (λ (i : Item). 7 ≤ length i.0) old
    → Committed C old w
    → length old < fuel
    → Removes C
        (notification_key sa)
        w
        (count_with (notification_key sa) old)
        (without (notification_key sa) old)
        old
        (rm_notification past fuel sa n w)
unfolding rm_notification
rm_notification-Removes C deletes past fuel sa n old w len small ord long e lt =
    subst
      (λ m.
        Removes C (notification_key sa) w (count_with (notification_key sa) old)
          (without (notification_key sa) old) old (rm_clamped past fuel sa m w))
      (clamp n small)
      (subst
        (λ s.
          Removes C (notification_key s) w (count_with (notification_key sa) old)
            (without (notification_key sa) old) old (rm_clamped past fuel sa n w))
        (take_whole sa n len)
        (rm_clamped-Removes C deletes past fuel sa sa n old w (take_whole sa n len) len small ord
          long e lt))
