-- ===== src/Db/Remove/Enter.antt =====
-- Where rmLog enters the database, and what its walk from there on removes.
use mathlib.Core.Path.{ap₂}
use wacs.Prelude.{
  ℕ, ◌<◌, ◌+◌, refl, ◌^◌, ◌≡◌, ap, ◌∙◌, sym, true, false, ◌&&◌, List, [], ◌∷◌, ◌++◌, map, pos,
  arith, length, Bool-cases, inl, inr, All,
}
use wacs.Layout.{Bytes, log_key_bytes, swap32, le_bytes}
use wacs.Lmdb.{Item}
use wacs.Lmdb.Shelf.{key_lt}
use wacs.Lmdb.Order.{starts_with, key_lt_trans_not}
use wacs.Db.Stored.{Entry, IsEntry, Sorted, IsBehind, entry_key, entry_item}
use wacs.Db.Times.{key_lt-beginning}
use wacs.Db.Read.{Query}
use wacs.Db.Read.Walk.{from_key}
use wacs.Db.Read.Exact.{matches, from_key-IsBehind}
use wacs.Db.Read.Complete.{LooksFor, All-map, from_key_below, from_key_above, in_range}
use wacs.Db.Read.Whole.{not_below_address, too_early}
use wacs.Db.Remove.{rm_log_decide}
use wacs.Db.Remove.Loop.{removed, left}
use wacs.Db.Remove.Outcome.{until_key}
use wacs.Db.Remove.Whole.{unmatched, behind_kept, until_from, walk_on}

until_key_below :
    (k : Bytes) (n : Entry) (is : List Item)
    → key_lt (entry_key n) k ≡ true
    → until_key k (entry_item n ∷ is) ≡ entry_item n ∷ until_key k is
unfolding until_key entry_item
until_key_below k n is h = rw h

until_key_above :
    (k : Bytes) (n : Entry) (is : List Item)
    → key_lt (entry_key n) k ≡ false
    → until_key k (entry_item n ∷ is) ≡ []
unfolding until_key entry_item
until_key_above k n is h = rw h

-- No address that begins as the key does stands before the key with the address filled with zeros.
zero_least :
    (p fill x y z : Bytes)
    → length x ≡ length p + length fill
    → All (λ b. b ≡ 0) fill
    → starts_with p x ≡ true
    → key_lt (x ++ y) ((p ++ fill) ++ z) ≡ true
    → x ≡ p ++ fill
unfolding starts_with key_lt
zero_least [] [] [] y z six zeros hit below = refl
zero_least [] [] (a ∷ x) y z six zeros hit below = absurd (omega (arith, six))
zero_least [] (b ∷ fill) [] y z six zeros hit below = absurd (omega (arith, six))
zero_least [] (b ∷ fill) (a ∷ x) y z six zeros hit below =
    ground (arith, six, zeros.0, below, zero_least [] fill x y z (omega (arith, six)) zeros.1 refl)
zero_least (b ∷ p) fill [] y z six zeros hit below = absurd (omega (arith, six))
zero_least (b ∷ p) fill (a ∷ x) y z six zeros hit below =
    ground (arith, six, hit, below, zero_least p fill x y z (omega (arith, six)) zeros)

-- The first bytes of an address, and the zeros with which rmLog fills its key.
pub record IsFilled (p fill : Bytes) : Type 0 where
  pub six : length p + length fill ≡ 6
  pub zeros : All (λ b. b ≡ 0) fill

module _ (past : Bytes → ℕ → ℕ) (q : Query) (p fill : Bytes) (looks : LooksFor q p)
    (filled : IsFilled p fill) (pad t : ℕ) (small : t < 2 ^ 32) (start : q.start ≡ pos t) where
  abbrev pub key : Bytes
  key = log_key_bytes pad b'L' (p ++ fill) (swap32 t)

  same_address :
      (n : Entry)
      → IsEntry n
      → starts_with p n.sa ≡ true
      → key_lt (entry_key n) key ≡ true
      → n.sa ≡ p ++ fill
  unfolding entry_key log_key_bytes key_lt
  same_address n valid hit below =
      zero_least p fill n.sa (n.key_pad ∷ le_bytes 8 (swap32 n.dt)) (pad ∷ le_bytes 8 (swap32 t))
        (valid.six ∙ sym filled.six) filled.zeros hit (ground (arith, below))

  -- An entry below the key does not match.
  below_no_match :
      (n : Entry)
      → n.key_pad ≡ pad
      → IsEntry n
      → key_lt (entry_key n) key ≡ true
      → (starts_with p n.sa && in_range q n.dt) ≡ false
  below_no_match n pads valid below = elim (Bool-cases (starts_with p n.sa)) [
    | inr miss ↦ ground (arith, miss)
    | inl hit ↦ ground (
      arith,
      hit,
      start,
      too_early pad t (p ++ fill) n small pads valid (same_address n valid hit below) below,
    )
  ]

  not_below : (x : Bytes) → key_lt x key ≡ false → key_lt x (b'L' ∷ p) ≡ false
  not_below x h = key_lt-beginning x (b'L' ∷ p) fill (not_below_address pad t (p ++ fill) x h)

  pub enter :
      (ns : List Entry) (rest : List Item)
      → All IsEntry ns
      → All (λ n. n.key_pad ≡ pad) ns
      → Sorted ns
      → All IsBehind rest
      → (removed (rm_log_decide past q) (from_key key (map entry_item ns ++ rest)) 0
          ≡ length (matches q p ns))
        × (until_key key (map entry_item ns ++ rest)
              ++ left (rm_log_decide past q) (from_key key (map entry_item ns ++ rest))
            ≡ map entry_item (unmatched q p ns) ++ rest)
  unfolding matches unmatched
  enter [] rest valid pads sorted behind =
      let kept = behind_kept past q (from_key key rest) 0 (from_key-IsBehind key rest behind) in
      (kept.0, ap (λ l. until_key key rest ++ l) kept.1 ∙ until_from key rest)
  enter (n ∷ ns) rest valid pads sorted behind =
      let is = map entry_item ns ++ rest in
      let d = rm_log_decide past q in
      elim (Bool-cases (key_lt (entry_key n) key)) [
        | inl below ↦
            let ih = enter ns rest valid.1 pads.1 sorted.1 behind in
            let miss = below_no_match n pads.0 valid.0 below in
            (
              ap (λ l. removed d l 0) (from_key_below key n is below) ∙ ih.0 ∙ ground (arith, miss),
              ap₂ (λ l m. l ++ left d m) (until_key_below key n is below)
                    (from_key_below key n is below)
                  ∙ ap (λ l. entry_item n ∷ l) ih.1
                  ∙ ground (arith, miss),
            )
        | inr above ↦
            let on =
              walk_on past q p looks (omega (arith, filled.six)) pad (n ∷ ns) rest 0 valid pads
                sorted behind
                (All-map (λ m lt. not_below (entry_key m) lt) (n ∷ ns)
                  (
                    above,
                    All-map (λ m lt. key_lt_trans_not key (entry_key n) (entry_key m) above lt) ns
                        sorted.0,
                  )) in
            (
              ap (λ l. removed d l 0) (from_key_above key n is above) ∙ on.0 ∙ omega arith,
              ap₂ (λ l m. l ++ left d m) (until_key_above key n is above)
                    (from_key_above key n is above)
                  ∙ on.1,
            )
      ]
