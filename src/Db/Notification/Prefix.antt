-- ===== src/Db/Notification/Prefix.antt =====
-- A walk in key order from a prefix on that removes items until one does not begin with it removes
-- all that do.
use wacs.Prelude.{
  ℕ, suc, ◌+◌, ◌≤◌, ◌≡◌, refl, ap, ◌∙◌, sym, true, false, ◌&&◌, List, [], ◌∷◌, ◌++◌, arith, length,
  take, inl, inr, Bool-cases, if◌then◌else◌, All, ◌==◌,
}
use wacs.Layout.{Bytes, tag_at, sa_at, byte_at}
use wacs.Lmdb.{Item}
use wacs.Lmdb.Shelf.{key_lt}
use wacs.Lmdb.Order.{starts_with, key_lt-starts_with, key_lt_trans_not, starts_with-past, Ordered}
use wacs.Db.Query.{bytes_eq}
use wacs.Db.Stored.{bytes_eq-take, starts_with-append}
use wacs.Db.Read.Walk.{from_key}
use wacs.Db.Remove.{Action, leave, remove}
use wacs.Db.Remove.Loop.{removed, left}
use wacs.Db.Remove.Outcome.{until_key}
use wacs.Db.Notification.{rm_notification_decide, notification_key}

-- The items whose key does not begin with the bytes, and how many there are whose key does.
unfoldable pub without : Bytes → List Item → List Item
unfolding starts_with
without p [] = []
without p (i ∷ is) = let rest = without p is in if starts_with p i.0 then rest else i ∷ rest

unfoldable pub count_with : Bytes → List Item → ℕ
unfolding starts_with
count_with p [] = 0
count_with p (i ∷ is) = let rest = count_with p is in if starts_with p i.0 then suc rest else rest

past_none :
    (p x : Bytes) (is : List Item)
    → key_lt x p ≡ false
    → starts_with p x ≡ false
    → All (λ (j : Item). key_lt x j.0 ≡ true) is
    → (without p is ≡ is) × (count_with p is ≡ 0)
unfolding without count_with
past_none p x [] h s k = (refl, refl)
past_none p x (j ∷ is) h s k =
    let miss = starts_with-past p x j.0 h s k.0 in
    let rest = past_none p x is h s k.1 in (rw miss (ap (λ t. j ∷ t) rest.0), rw miss rest.1)

module _ (decide : Item → Action) (p : Bytes) where
  -- The choice for an item.
  abbrev pub Decides : Item → Type 0
  Decides i = decide i ≡ (if starts_with p i.0 then remove else leave)

  -- From an item on that is not below the prefix.
  walk_on :
      (is : List Item) (n : ℕ)
      → All (λ i. Decides i) is
      → Ordered is
      → All (λ (j : Item). key_lt j.0 p ≡ false) is
      → (removed decide is n ≡ n + count_with p is) × (left decide is ≡ without p is)
  unfolding removed left without count_with
  walk_on [] n d o a = (omega arith, refl)
  walk_on (i ∷ is) n d o a = elim (Bool-cases (starts_with p i.0)) [
    | inl hit ↦ ground (arith, hit, d.0, walk_on is (n + 1) d.1 o.1 a.1)
    | inr miss ↦ ground (arith, miss, d.0, past_none p i.0 is a.0 miss o.0)
  ]

  above :
      (x : Bytes) (is : List Item)
      → key_lt x p ≡ false
      → All (λ (j : Item). key_lt x j.0 ≡ true) is
      → All (λ (j : Item). key_lt j.0 p ≡ false) is
  above x [] h k = tt
  above x (j ∷ is) h k = (key_lt_trans_not p x j.0 h k.0, above x is h k.1)

  low_misses : (x : Bytes) → key_lt x p ≡ true → starts_with p x ≡ false
  low_misses x below = elim (Bool-cases (starts_with p x)) [
    | inl hit ↦ cc (below, key_lt-starts_with p x hit)
    | inr miss ↦ miss
  ]

  -- From the start, entering at the prefix.
  pub prefix_walk :
      (is : List Item)
      → All (λ i. Decides i) is
      → Ordered is
      → (removed decide (from_key p is) 0 ≡ count_with p is)
        × (until_key p is ++ left decide (from_key p is) ≡ without p is)
  unfolding from_key until_key without count_with removed left
  prefix_walk [] d o = (refl, refl)
  prefix_walk (i ∷ is) d o = elim (Bool-cases (key_lt i.0 p)) [
    | inl below ↦ ground (arith, below, low_misses i.0 below, prefix_walk is d.1 o.1)
    | inr ge ↦ ground (arith, ge, walk_on (i ∷ is) 0 d o (ge, above i.0 is ge o.0))
  ]

sa_at-long :
    (past : Bytes → ℕ → ℕ) (t a b c d e f : ℕ) (r : Bytes)
    → sa_at past (t ∷ a ∷ b ∷ c ∷ d ∷ e ∷ f ∷ r) ≡ a ∷ b ∷ c ∷ d ∷ e ∷ f ∷ []
unfolding sa_at byte_at
sa_at-long past t a b c d e f r = refl

tag_at-cons : (past : Bytes → ℕ → ℕ) (t : ℕ) (r : Bytes) → tag_at past (t ∷ r) ≡ t
unfolding tag_at byte_at
tag_at-cons past t r = refl

starts_with-cons :
    (b : ℕ) (p : Bytes) (a : ℕ) (x : Bytes)
    → starts_with (b ∷ p) (a ∷ x) ≡ ((a == b) && starts_with p x)
unfolding starts_with
starts_with-cons b p a x = refl

sz_lem : (p s x : Bytes) (n : ℕ) → length p ≡ n → bytes_eq (take n x) p ≡ starts_with p x
sz_lem p s x n e = ap (λ m. bytes_eq (take m x) p) (sym e) ∙ bytes_eq-take p x

-- The choice of rmNotification for a key of at least seven bytes.
pub rm_notification-Decides :
    (past : Bytes → ℕ → ℕ) (sa p : Bytes) (n : ℕ) (i : Item)
    → take n sa ≡ p
    → length p ≡ n
    → n ≤ 6
    → 7 ≤ length i.0
    → Decides (rm_notification_decide past sa n) (notification_key p) i
unfolding rm_notification_decide notification_key
rm_notification-Decides past sa p n (t ∷ a ∷ b ∷ c ∷ d ∷ e ∷ f ∷ r, v) tk len small long =
    let x = a ∷ b ∷ c ∷ d ∷ e ∷ f ∷ [] in
    ground (
      arith,
      sa_at-long past t a b c d e f r,
      tag_at-cons past t (a ∷ b ∷ c ∷ d ∷ e ∷ f ∷ r),
      starts_with-cons b'T' p t (a ∷ b ∷ c ∷ d ∷ e ∷ f ∷ r),
      sz_lem p sa x n len,
      tk,
      len,
      starts_with-append p x r (omega (arith, len, small)),
    )
rm_notification-Decides past sa p n (k, v) tk len small long = absurd (omega (arith, long))
