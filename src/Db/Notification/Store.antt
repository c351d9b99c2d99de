-- ===== src/Db/Notification/Store.antt =====
-- What putNotification leaves in the database, and what getNotification and lsNotification read.
use mathlib.Core.Path.{ap₂}
use wacs.Prelude.{
  ◌⊎◌, ◌≢◌, ℕ, ◌<◌, ◌≡◌, refl, ap, ◌∙◌, true, false, ◌||◌, some, List, [], ◌∷◌, ℤ, arith, length,
  take, replicate, inl, inr, Bool-cases, ltb, if◌then◌else◌,
}
use wacs.Layout.{Bytes, sa_at}
use wacs.ErrorCodes.{errcode_lmdb_txn_begin, errcode_lmdb_txn_commit}
use wacs.Lmdb.{Lmdb, set_range, first, Item, mdb_success, mdb_map_full}
use wacs.Lmdb.Shelf.{Shelf, at_start, insert, erase, items-at_start, committed-at_start}
use wacs.Lmdb.Contract.{Contract, found, go_to}
use wacs.Db.Monad.{World, txn_begin, txn_commit, cursor_open, cursor_get, pure}
use wacs.Db.Query.{fails}
use wacs.Db.Loop.{cursor_loop, walk, found-eq-some}
use wacs.Db.Transaction.{
  Stands, Committed, begin-Committed, begin-Stands, abort-Stands, put-Stands, put_failed-Stands,
  del-Stands, del_failed-Stands,
}
use wacs.Db.Put.Stores.{IsAtomic, commit_code-IsAtomic, neq_ℤ}
use wacs.Db.Read.Walk.{from_key, loop_after_set_range}
use wacs.Db.Remove.Outcome.{open_at_start}
use wacs.Db.Notification.{
  OnNotification, notification_key, put_key, put_or_del, put_notification, get_notification,
  ls_notification, ls_notification_step,
}

-- The items after putNotification: an empty value removes the key.
unfoldable pub stored_notification : Bytes → Bytes → List Item → List Item
stored_notification k value is = if ltb 0 (length value) then insert k value is else erase k is

module _ {L : Lmdb} (C : Contract L) (old : List Item) where
  put_or_del-Stands :
      {is : List Item} (k value : Bytes) (w : World L)
      → Stands C old is w
      → fails (put_or_del k value w).0 ≡ false
      → Stands C old (stored_notification k value is) (put_or_del k value w).1
  unfolding put_or_del stored_notification
  put_or_del-Stands {is} k value w h ok = elim (Bool-cases (ltb 0 (length value))) [
    | inl full ↦ ground (arith, full, ok, put-Stands C old {is = is} k value w h)
    | inr empty ↦ ground (arith, empty, ok, del-Stands C old {is = is} k w h)
  ]

  put_or_del_failed-Committed :
      (k value : Bytes) (w : World L)
      → Stands C old old w
      → fails (put_or_del k value w).0 ≡ true
      → Committed C old (put_or_del k value w).1
  unfolding put_or_del
  put_or_del_failed-Committed k value w h bad = elim (Bool-cases (ltb 0 (length value))) [
    | inl full ↦ ground (arith, full, bad, put_failed-Stands C old {is = old} k value w h)
    | inr empty ↦ ground (arith, empty, bad, del_failed-Stands C old {is = old} k w h)
  ]

  -- putNotification is atomic if neither call answers that the map is full: it answers 0 and the
  -- value is stored under its key, or the key is removed for an empty value, or it answers an error
  -- and nothing has changed.
  pub put_notification-IsAtomic :
      (over sa value : Bytes) (w : World L)
      → Committed C old w
      → (put_or_del (put_key over sa) value (txn_begin w).1).0 ≢ mdb_map_full
      → IsAtomic C mdb_success
          (stored_notification (put_key over sa) value old)
          old
          (put_notification over sa value w)
  unfolding put_notification
  put_notification-IsAtomic over sa value w e fits =
      let k = put_key over sa in
      let p = put_or_del k value (txn_begin w).1 in
      let plain = neq_ℤ p.0 mdb_map_full fits in
      elim (Bool-cases (fails (txn_begin w).0)) [
        | inl bad ↦ ground (arith, bad, begin-Committed C old w e)
        | inr ok ↦ elim (Bool-cases (fails p.0)) [
          | inl bad1 ↦ ground (
            arith,
            ok,
            plain,
            bad1,
            (abort-Stands C old p.1 (
                put_or_del_failed-Committed k value (txn_begin w).1 (begin-Stands C old w e ok)
                  bad1)).below,
          )
          | inr ok1 ↦ ground (
            arith,
            ok,
            plain,
            ok1,
            commit_code-IsAtomic C mdb_success (stored_notification k value old) old p.1 (
                put_or_del-Stands {is = old} k value (txn_begin w).1 (begin-Stands C old w e ok)
                  ok1),
          )
        ]
      ]

-- The value of the first item where there is one that is not empty.
unfoldable pub first_value : Bytes → List Item → Bytes
first_value retval [] = retval
first_value retval ((k, v) ∷ is) = if ltb 0 (length v) then v else retval

-- What lsNotification hands to a callback that never stops: the address and the value of each item
-- from its search key on, but those without a value or with a key of less than six bytes.
unfoldable pub listed : (Bytes → ℕ → ℕ) → List Item → List (Bytes × Bytes)
unfolding sa_at
listed past [] = []
listed past ((k, v) ∷ is) =
    let rest = listed past is in
    if ltb (length v) 1 || ltb (length k) 6 then rest else (sa_at past k, v) ∷ rest

-- A callback called in turn until it asks to stop.
unfoldable pub feed_notes : {E : Type 0} → OnNotification E → List (Bytes × Bytes) → E → E
feed_notes f [] e = e
feed_notes f ((a, v) ∷ rest) e = elim (f e a v).0 [
  | true ↦ (f e a v).1
  | false ↦ feed_notes f rest (f e a v).1
]

walk-listed :
    {E : Type 0} (past : Bytes → ℕ → ℕ) (f : OnNotification E) (is : List Item) (e : E)
    → walk (ls_notification_step past f) is e ≡ feed_notes f (listed past is) e
unfolding walk ls_notification_step listed feed_notes
walk-listed past f [] e = refl
walk-listed past f ((k, v) ∷ is) e =
    ground (arith, walk-listed past f is e, walk-listed past f is (f e (sa_at past k) v).1)

fails-neq : (r : ℤ) → fails r ≡ true → r ≢ mdb_success
fails-neq r h e = ground (arith, h, e)

-- lsNotification with more fuel than items ends: it answers 0 and its callback has been called, in key
-- order and until it asked to stop, on what is listed from the search key on, or it answers another
-- code.
pub ls_notification-eq-feed :
    {L : Lmdb} (C : Contract L) {E : Type 0} (past : Bytes → ℕ → ℕ) (fuel : ℕ)
    (f : OnNotification E) (e : E) (old : List Item) (w : World L)
    → Committed C old w
    → length old < fuel
    → ((ls_notification past fuel (some f) e w).0
        ≡ some (
          mdb_success,
          feed_notes f (listed past (from_key (take 6 (notification_key (replicate 6 0))) old)) e,
        ))
      ⊎ ((r : ℤ) × (e' : E) × (r ≢ mdb_success)
          × ((ls_notification past fuel (some f) e w).0 ≡ some (r, e')))
unfolding ls_notification
ls_notification-eq-feed {L} C {E} past fuel f e old w h lt = elim (Bool-cases (fails b.0)) [
  | inl p ↦ rw p (inr (errcode_lmdb_txn_begin, e, (λ z. absurd (ground (arith, z))), refl))
  | inr p ↦ elim (Bool-cases (fails c.0.0)) [
    | inl q ↦ rw p (rw q (inr (c.0.0, e, fails-neq c.0.0 q, refl)))
    | inr q ↦ elim (Bool-cases (fails g.0.0)) [
      | inl o ↦ rw p (rw q (rw o (inr (g.0.0, e, fails-neq g.0.0 o, refl))))
      | inr o ↦
          let looped =
            loop_after_set_range C fuel k (ls_notification_step past f) c.0.1 old e c.1
              (open_at_start C old w h p) o lt
            ∙ ap some (walk-listed past f (from_key k old) e) in
          elim (Bool-cases (
            fails
              (txn_commit
                (cursor_loop c.0.1 (λ i x. pure (ls_notification_step past f i x)) fuel g.0.1 e
                  g.1).1).0)) [
                    | inl bad ↦ inr (
                      errcode_lmdb_txn_commit,
                      feed_notes f (listed past (from_key k old)) e,
                      (λ z. absurd (ground (arith, z))),
                      ground (arith, p, q, o, looped, bad),
                    )
                    | inr good ↦ inl (ground (arith, p, q, o, looped, good))
                  ]
    ]
  ]
]
  where
    k : Bytes
    k = take 6 (notification_key (replicate 6 0))

    b : ℤ × World L
    b = txn_begin w

    c : (ℤ × ℕ) × World L
    c = cursor_open b.1

    g : (ℤ × Item) × World L
    g = cursor_get c.0.1 (set_range k) c.1

first_here :
    (retval : Bytes) (old : List Item) (r : ℤ) (i : Item)
    → found r i ≡ (at_start old old).here
    → (if fails r then retval else if ltb 0 (length i.1) then i.1 else retval)
      ≡ first_value retval old
unfolding at_start first_value
first_here retval [] r i h = ground (arith, h)
first_here retval ((k, v) ∷ is) r i h = let got = found-eq-some r i (k, v) h in ground (arith, got)

first_found :
    {L : Lmdb} (C : Contract L) (old : List Item) (c : ℕ) (w : World L)
    → C.view w.lib ≡ at_start old old
    → found (cursor_get c first w).0.0 (cursor_get c first w).0.1 ≡ (at_start old old).here
unfolding cursor_get go_to
first_found C old c w v =
    C.get_found c first w.lib
    ∙ ap (λ (u : Shelf). (go_to first u).here) v
    ∙ ap₂ (λ a b. (at_start a b).here) (committed-at_start old old) (items-at_start old old)

-- getNotification does not look for its address: where the transaction begins and the cursor opens, it
-- leaves the value of the first item of the whole database, unless that is empty, whatever the
-- address is.
pub get_notification-first :
    {L : Lmdb} (C : Contract L) (retval sa : Bytes) (old : List Item) (w : World L)
    → Committed C old w
    → fails (txn_begin w).0 ≡ false
    → fails (cursor_open (txn_begin w).1).0.0 ≡ false
    → (get_notification retval sa w).0.1 ≡ first_value retval old
unfolding get_notification
get_notification-first C retval sa old w e ok opened =
    let c = cursor_open (txn_begin w).1 in
    let g = cursor_get c.0.1 first c.1 in
    let v = open_at_start C old w e ok in
    let here = first_here retval old g.0.0 g.0.1 (first_found C old c.0.1 c.1 v) in
    ground (arith, ok, opened, here)
