-- ===== src/Lmdb/Order.antt =====
-- The order of keys, the keys that begin with given bytes, and lists of items in key order.
use mathlib.Core.Path.{subst}
use wacs.Prelude.{
  ◌≡◌, refl, Bool, true, false, ◌&&◌, ◌||◌, List, [], ◌∷◌, ◌++◌, arith, ◌==◌, All, Bool-cases, inl,
  inr,
}
use wacs.Layout.{Bytes}
use wacs.Lmdb.Defs.{Item}
use wacs.Lmdb.Shelf.{key_lt, insert, erase}

-- The key begins with the bytes.
unfoldable pub starts_with : Bytes → Bytes → Bool
starts_with [] x = true
starts_with (b ∷ p) [] = false
starts_with (b ∷ p) (a ∷ x) = (a == b) && starts_with p x

-- A key that begins with the bytes is not below them.
pub key_lt-starts_with : (p x : Bytes) → starts_with p x ≡ true → key_lt x p ≡ false
unfolding starts_with key_lt
key_lt-starts_with [] x h = refl
key_lt-starts_with (b ∷ p) [] h = cc
key_lt-starts_with (b ∷ p) (a ∷ x) h = ground (arith, key_lt-starts_with p x)

-- What is above a key that is not below the bytes is not below them either.
pub key_lt_trans_not : (p x y : Bytes) → key_lt x p ≡ false → key_lt x y ≡ true → key_lt y p ≡ false
unfolding key_lt
key_lt_trans_not [] x y h k = refl
key_lt_trans_not (b ∷ p) [] y h k = cc
key_lt_trans_not (b ∷ p) (a ∷ x) [] h k = cc
key_lt_trans_not (b ∷ p) (a ∷ x) (c ∷ y) h k = ground (arith, key_lt_trans_not p x y)

-- Above a key that is past the bytes, no key begins with them.
pub starts_with-past :
    (p x y : Bytes)
    → key_lt x p ≡ false
    → starts_with p x ≡ false
    → key_lt x y ≡ true
    → starts_with p y ≡ false
unfolding key_lt starts_with
starts_with-past [] x y h s k = cc
starts_with-past (b ∷ p) [] y h s k = cc
starts_with-past (b ∷ p) (a ∷ x) [] h s k = refl
starts_with-past (b ∷ p) (a ∷ x) (c ∷ y) h s k = ground (arith, starts_with-past p x y)

pub key_lt_trans : (x y z : Bytes) → key_lt x y ≡ true → key_lt y z ≡ true → key_lt x z ≡ true
unfolding key_lt
key_lt_trans x [] z h k = cc
key_lt_trans x (b ∷ y) [] h k = cc
key_lt_trans [] (b ∷ y) (c ∷ z) h k = refl
key_lt_trans (a ∷ x) (b ∷ y) (c ∷ z) h k = ground (arith, key_lt_trans x y z)

-- Keys of which neither is below the other are one.
pub key_lt_total : (x y : Bytes) → key_lt x y ≡ false → key_lt y x ≡ false → x ≡ y
unfolding key_lt
key_lt_total [] [] h k = refl
key_lt_total [] (b ∷ y) h k = cc
key_lt_total (a ∷ x) [] h k = cc
key_lt_total (a ∷ x) (b ∷ y) h k = ground (arith, key_lt_total x y)

-- The items are in key order.
abbrev pub Ordered : List Item → Type 0
Ordered [] = Unit
Ordered (i ∷ is) = All (λ j. key_lt i.0 j.0 ≡ true) is × Ordered is

module _ (P : Item → Type 0) where
  pub All-insert : (k v : Bytes) (is : List Item) → P (k, v) → All P is → All P (insert k v is)
  unfolding insert
  All-insert k v [] p h = (p, tt)
  All-insert k v ((j, w) ∷ is) p h = elim (Bool-cases (key_lt j k)) [
    | inl lt ↦ rw lt (h.0, All-insert k v is p h.1)
    | inr ge ↦ elim (Bool-cases (key_lt k j)) [
      | inl gt ↦ rw ge (rw gt (p, h))
      | inr eq ↦ rw ge (rw eq (p, h.1))
    ]
  ]

  pub All-erase : (k : Bytes) (is : List Item) → All P is → All P (erase k is)
  unfolding erase
  All-erase k [] h = tt
  All-erase k ((j, w) ∷ is) h = elim (Bool-cases (key_lt j k || key_lt k j)) [
    | inl other ↦ rw other (h.0, All-erase k is h.1)
    | inr same ↦ rw same h.1
  ]

  pub All-without : (b a : List Item) (i : Item) → All P (b ++ i ∷ a) → All P (b ++ a)
  All-without [] a i h = h.1
  All-without (j ∷ b) a i h = (h.0, All-without b a i h.1)

All-below :
    (k j : Bytes) (is : List Item)
    → key_lt k j ≡ true
    → All (λ i. key_lt j i.0 ≡ true) is
    → All (λ i. key_lt k i.0 ≡ true) is
All-below k j [] lt h = tt
All-below k j (i ∷ is) lt h = (key_lt_trans k j i.0 lt h.0, All-below k j is lt h.1)

pub insert-Ordered : (k v : Bytes) (is : List Item) → Ordered is → Ordered (insert k v is)
unfolding insert
insert-Ordered k v [] h = (tt, tt)
insert-Ordered k v ((j, w) ∷ is) h = elim (Bool-cases (key_lt j k)) [
  | inl lt ↦ rw lt (All-insert (λ i. key_lt j i.0 ≡ true) k v is lt h.0, insert-Ordered k v is h.1)
  | inr ge ↦ elim (Bool-cases (key_lt k j)) [
    | inl gt ↦ rw ge (rw gt ((gt, All-below k j is gt h.0), h))
    | inr eq ↦ rw ge (
        rw eq (
          subst (λ x. All (λ (i : Item). key_lt x i.0 ≡ true) is) (key_lt_total j k ge eq) h.0,
          h.1,
        ))
  ]
]

pub erase-Ordered : (k : Bytes) (is : List Item) → Ordered is → Ordered (erase k is)
unfolding erase
erase-Ordered k [] h = tt
erase-Ordered k ((j, w) ∷ is) h = elim (Bool-cases (key_lt j k || key_lt k j)) [
  | inl other ↦ rw other (All-erase (λ i. key_lt j i.0 ≡ true) k is h.0, erase-Ordered k is h.1)
  | inr same ↦ rw same h.1
]

pub without-Ordered : (b a : List Item) (i : Item) → Ordered (b ++ i ∷ a) → Ordered (b ++ a)
without-Ordered [] a i h = h.1
without-Ordered (j ∷ b) a i h =
    (All-without (λ x. key_lt j.0 x.0 ≡ true) b a i h.0, without-Ordered b a i h.1)
