-- ===== src/Db/Read/Complete.antt =====
-- readLog misses nothing: on a database in key order it delivers every log entry that its filter
-- asks for, in order. For less than a whole address this holds whatever the padding bytes are.
use wacs.Prelude.{
  ℕ, ◌<◌, ◌≤◌, ◌≡◌, refl, ap, ◌∙◌, sym, Bool, true, false, not, ◌&&◌, Option, some, List, [], ◌∷◌,
  ◌++◌, map, pos, arith, length, ltb_ℤ, if◌then◌else◌, Bool-cases, inl, inr, All,
}
use wacs.Layout.{Bytes, LogKey, LogData}
use wacs.Lmdb.{Item}
use wacs.Lmdb.Shelf.{key_lt}
use wacs.Lmdb.Order.{starts_with, key_lt-starts_with, key_lt_trans_not, starts_with-past}
use wacs.Db.Query.{sa_differs}
use wacs.Db.Stored.{Entry, IsEntry, Sorted, IsBehind, entry_key, entry_item, starts_with-entry_key}
use wacs.Db.Read.{Query}
use wacs.Db.Read.Walk.{from_key, visible_logs, visible_next}
use wacs.Db.Read.Exact.{matches, visible-cons, visible-behind, from_key-IsBehind}

-- The query looks for addresses that begin with `p`.
pub record LooksFor (q : Query) (p : Bytes) : Type 0 where
  pub size : q.sz ≡ length p
  pub differs : (x : Bytes) → sa_differs q.sa q.sz x ≡ not (starts_with p x)

pub All-zip {ℓ} :
    {A : Type ℓ} {P Q R : A → Type 0} (f : (a : A) → P a → Q a → R a) (xs : List A)
    → All P xs
    → All Q xs
    → All R xs
All-zip f [] hp hq = tt
All-zip f (x ∷ xs) hp hq = (f x hp.0 hq.0, All-zip f xs hp.1 hq.1)

pub All-map {ℓ} :
    {A : Type ℓ} {P Q : A → Type 0} (f : (a : A) → P a → Q a) (xs : List A) → All P xs → All Q xs
All-map f [] h = tt
All-map f (x ∷ xs) h = (f x h.0, All-map f xs h.1)

pub from_key_below :
    (k : Bytes) (n : Entry) (is : List Item)
    → key_lt (entry_key n) k ≡ true
    → from_key k (entry_item n ∷ is) ≡ from_key k is
unfolding from_key entry_item
from_key_below k n is h = rw h

pub from_key_above :
    (k : Bytes) (n : Entry) (is : List Item)
    → key_lt (entry_key n) k ≡ false
    → from_key k (entry_item n ∷ is) ≡ entry_item n ∷ is
unfolding from_key entry_item
from_key_above k n is h = rw h

below_misses :
    (p : Bytes) (n : Entry)
    → length p ≤ length n.sa
    → key_lt (entry_key n) (b'L' ∷ p) ≡ true
    → starts_with p n.sa ≡ false
below_misses p n short below = elim (Bool-cases (starts_with p n.sa)) [
  | inl hit ↦
      cc
        (below, key_lt-starts_with (b'L' ∷ p) (entry_key n) (starts_with-entry_key p n short ∙ hit))
  | inr miss ↦ miss
]

module _ (q : Query) (p : Bytes) where
  no_match : (ns : List Entry) → All (λ n. starts_with p n.sa ≡ false) ns → matches q p ns ≡ []
  unfolding matches
  no_match [] h = refl
  no_match (n ∷ ns) (e, h) = ground (arith, e, no_match ns h)

  -- Past the addresses that begin with `p` no entry matches.
  pub no_match_past :
      (n : Entry) (ns : List Entry)
      → length p ≤ 6
      → key_lt (entry_key n) (b'L' ∷ p) ≡ false
      → starts_with p n.sa ≡ false
      → IsEntry n
      → All IsEntry ns
      → All (λ m. key_lt (entry_key n) (entry_key m) ≡ true) ns
      → matches q p ns ≡ []
  no_match_past n ns short above miss valid valids sorted = no_match ns (
      All-zip
        (λ m v lt.
          sym (starts_with-entry_key p m (omega (arith, v.six)))
          ∙ starts_with-past (b'L' ∷ p) (entry_key n) (entry_key m) above
              (starts_with-entry_key p n (omega (arith, valid.six)) ∙ miss) lt)
        ns valids sorted)

not_empty : (p x : Bytes) → starts_with p x ≡ false → 0 < length p
unfolding starts_with
not_empty [] x miss = cc
not_empty (b ∷ p) x miss = omega arith

-- The time of the record is in the range of the query.
abbrev pub in_range : Query → ℕ → Bool
in_range q t = not (ltb_ℤ q.finish (pos t)) && not (ltb_ℤ (pos t) q.start)

module _ (q : Query) (p : Bytes) (looks : LooksFor q p) where
  pub visible_at_miss :
      (k : LogKey) (d : LogData) (rest : List (LogKey × Option LogData))
      → starts_with p k.sa ≡ false
      → visible_next q 4 k b'L' d rest ≡ []
  unfolding visible_next
  visible_at_miss k d rest miss =
      ground (arith, miss, looks.differs k.sa, looks.size, not_empty p k.sa miss)

  visible_at_match :
      (k : LogKey) (d : LogData) (rest : List (LogKey × Option LogData))
      → length p < 6
      → starts_with p k.sa ≡ true
      → visible_next q 4 k b'L' d rest ≡ (if in_range q k.dt then (k, some d) ∷ rest else rest)
  unfolding visible_next
  visible_at_match k d rest short hit = ground (arith, hit, looks.differs k.sa, looks.size)

module _ (past : Bytes → ℕ → ℕ) (q : Query) (p : Bytes) (looks : LooksFor q p)
    (short : length p < 6) where
  -- Once the entries are not below `p`.
  visible_not_below :
      (ns : List Entry) (rest : List Item)
      → All IsEntry ns
      → Sorted ns
      → All IsBehind rest
      → All (λ n. key_lt (entry_key n) (b'L' ∷ p) ≡ false) ns
      → visible_logs past q (map entry_item ns ++ rest) ≡ matches q p ns
  unfolding matches
  visible_not_below [] rest valid sorted behind above = visible-behind past q rest behind
  visible_not_below (n ∷ ns) rest valid sorted behind above =
      let k : LogKey = record { sa = n.sa; dt = n.dt } in
      let tail = visible_logs past q (map entry_item ns ++ rest) in
      visible-cons past q n (map entry_item ns ++ rest) valid.0
      ∙ elim (Bool-cases (starts_with p n.sa)) [
        | inl hit ↦
            visible_at_match q p looks k n.entry_data tail short hit
            ∙ ground (arith, hit, visible_not_below ns rest valid.1 sorted.1 behind above.1)
        | inr miss ↦
            visible_at_miss q p looks k n.entry_data tail miss
            ∙ ground (
              arith,
              miss,
              no_match_past q p n ns (omega arith) above.0 miss valid.0 valid.1 sorted.0,
            )
      ]

  -- A search for less than a whole address delivers exactly the matching entries.
  pub visible-eq-matches :
      (ns : List Entry) (rest : List Item)
      → All IsEntry ns
      → Sorted ns
      → All IsBehind rest
      → visible_logs past q (from_key (b'L' ∷ p) (map entry_item ns ++ rest)) ≡ matches q p ns
  unfolding matches
  visible-eq-matches [] rest valid sorted behind =
      visible-behind past q (from_key (b'L' ∷ p) rest) (from_key-IsBehind (b'L' ∷ p) rest behind)
  visible-eq-matches (n ∷ ns) rest valid sorted behind =
      let k : Bytes = b'L' ∷ p in
      elim (Bool-cases (key_lt (entry_key n) k)) [
        | inl below ↦
            ap (visible_logs past q) (from_key_below k n (map entry_item ns ++ rest) below)
            ∙ visible-eq-matches ns rest valid.1 sorted.1 behind
            ∙ ground (arith, below_misses p n (omega (arith, valid.0.six)) below)
        | inr above ↦
            ap (visible_logs past q) (from_key_above k n (map entry_item ns ++ rest) above)
            ∙ visible_not_below (n ∷ ns) rest valid sorted behind (
              above,
              All-map (λ m lt. key_lt_trans_not k (entry_key n) (entry_key m) above lt) ns sorted.0,
            )
      ]
