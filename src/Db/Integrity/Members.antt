-- ===== src/Db/Integrity/Members.antt =====
-- What is in a store after a put, and what readers see of it.
use mathlib.Core.Path.{subst}
use mathlib.Core.List.{Memᴰ}
use wacs.Prelude.{
  ℕ, ◌≡◌, refl, sym, ap, ◌∙◌, true, not, ◌&&◌, inl, inr, pos, List, [], ◌∷◌, map, All, Option, some,
  take, zero, suc, ltb_ℤ, Bool-cases, ==_self,
}
use wacs.Layout.{Bytes, LogKey, LogData}
use wacs.Lmdb.{Item}
use wacs.Lmdb.Shelf.{key_lt, insert}
use wacs.Lmdb.Order.{starts_with}
use wacs.Db.Stored.{Entry, IsEntry, entry_item, log_key_of-entry_key, log_data_at-entry_item}
use wacs.Db.Read.{Query, log_key_of}
use wacs.Layout.{log_data_at}
use wacs.Db.Read.Exact.{matches}

-- An item is there after it is inserted, and is still there after another one is.
pub Memᴰ-insert : (k v : Bytes) (is : List Item) → Memᴰ (k, v) (insert k v is)
unfolding insert
Memᴰ-insert k v [] = Memᴰ.head refl
Memᴰ-insert k v ((j, w) ∷ is) = elim (Bool-cases (key_lt j k)) [
  | inl lt ↦ rw lt (Memᴰ.tail (Memᴰ-insert k v is))
  | inr ge ↦ elim (Bool-cases (key_lt k j)) [
    | inl gt ↦ rw ge (rw gt (Memᴰ.head refl))
    | inr eq ↦ rw ge (rw eq (Memᴰ.head refl))
  ]
]

pub Memᴰ-insert_other :
    (i : Item) (k v : Bytes) (is : List Item)
    → key_lt i.0 k ≡ true
    → Memᴰ i is
    → Memᴰ i (insert k v is)
unfolding insert
Memᴰ-insert_other i k v [] below m = elim m [ ]
Memᴰ-insert_other i k v ((j, w) ∷ is) below (Memᴰ.head e) =
    rw (ap (λ (x : Item). key_lt x.0 k) (sym e) ∙ below) (Memᴰ.head e)
Memᴰ-insert_other i k v ((j, w) ∷ is) below (Memᴰ.tail m) = elim (Bool-cases (key_lt j k)) [
  | inl lt ↦ rw lt (Memᴰ.tail (Memᴰ-insert_other i k v is below m))
  | inr ge ↦ elim (Bool-cases (key_lt k j)) [
    | inl gt ↦ rw ge (rw gt (Memᴰ.tail (Memᴰ.tail m)))
    | inr eq ↦ rw ge (rw eq (Memᴰ.tail m))
  ]
]

-- An item of a mapped list comes from an element.
pub mapped :
    (i : Item) (ns : List Entry)
    → Memᴰ i (map entry_item ns)
    → (n : Entry) × Memᴰ n ns × (i ≡ entry_item n)
mapped i [] m = elim m [ ]
mapped i (n ∷ ns) (Memᴰ.head e) = (n, Memᴰ.head refl, e)
mapped i (n ∷ ns) (Memᴰ.tail m) = let (n', m', e) = mapped i ns m in (n', Memᴰ.tail m', e)

pub All-Memᴰ : {A : Type 0} (P : A → Type 0) (i : A) (is : List A) → All P is → Memᴰ i is → P i
All-Memᴰ P i [] h m = elim m [ ]
All-Memᴰ P i (j ∷ is) h (Memᴰ.head e) = subst P (sym e) h.0
All-Memᴰ P i (j ∷ is) h (Memᴰ.tail m) = All-Memᴰ P i is h.1 m

-- The record that a reader hands out for an entry.
abbrev pub handed : Entry → LogKey × Option LogData
handed n = (record { sa = n.sa; dt = n.dt }, some n.entry_data)

pub matches-Memᴰ :
    (q : Query) (p : Bytes) (n : Entry) (ns : List Entry)
    → (starts_with p n.sa && not (ltb_ℤ q.finish (pos n.dt)) && not (ltb_ℤ (pos n.dt) q.start))
      ≡ true
    → Memᴰ n ns
    → Memᴰ (handed n) (matches q p ns)
unfolding matches
matches-Memᴰ q p n [] h d = elim d [ ]
matches-Memᴰ q p n (m ∷ ns) h (Memᴰ.head e) =
    rw
      (ap
          (λ (x : Entry).
            starts_with p x.sa && not (ltb_ℤ q.finish (pos x.dt)) && not (ltb_ℤ (pos x.dt) q.start))
          (sym e)
        ∙ h)
      (Memᴰ.head (ap handed e))
matches-Memᴰ q p n (m ∷ ns) h (Memᴰ.tail d) =
    elim (Bool-cases
      (starts_with p m.sa && not (ltb_ℤ q.finish (pos m.dt)) && not (ltb_ℤ (pos m.dt) q.start))) [
        | inl hit ↦ rw hit (Memᴰ.tail (matches-Memᴰ q p n ns h d))
        | inr miss ↦ rw miss (matches-Memᴰ q p n ns h d)
      ]

pub starts_with-take : (n : ℕ) (s : Bytes) → starts_with (take n s) s ≡ true
unfolding starts_with
starts_with-take zero s = refl
starts_with-take (suc n) [] = refl
starts_with-take (suc n) (b ∷ s) = rw (==_self b) (starts_with-take n s)

-- Entries that are stored as one item are handed out as one record.
pub same_item :
    (n m : Entry) → IsEntry n → IsEntry m → entry_item n ≡ entry_item m → handed n ≡ handed m
unfolding entry_item
same_item n m vn vm e =
    let zeros : Bytes → ℕ → ℕ = λ b i. 0 in
    let keys =
      sym (log_key_of-entry_key zeros vn)
      ∙ ap (λ (i : Item). log_key_of zeros i.0) e
      ∙ log_key_of-entry_key zeros vm in
    let values =
      sym (log_data_at-entry_item zeros vn)
      ∙ ap (λ (i : Item). log_data_at zeros i.1) e
      ∙ log_data_at-entry_item zeros vm in
    λ i. (keys i, some (values i))
