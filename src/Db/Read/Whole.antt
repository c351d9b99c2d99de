-- ===== src/Db/Read/Whole.antt =====
-- readLog for a whole address. It leaves the loop at the first entry that is too late, which is
-- right because the entries of one address stand in the order of their times, if all keys were
-- stored with the same padding byte.
use mathlib.Core.Path.{ap₂}
use wacs.Prelude.{
  ltb→lt, ℕ, ◌<◌, ◌^◌, ◌≡◌, refl, ap, ◌∙◌, sym, true, false, ◌&&◌, Option, some, List, [], ◌∷◌,
  ◌++◌, map, pos, arith, length, ltb_ℤ, if◌then◌else◌, Bool-cases, inl, inr, All,
}
use wacs.Layout.{Bytes, LogKey, LogData, log_key_bytes, le_bytes, swap32}
use wacs.Lmdb.{Item}
use wacs.Lmdb.Shelf.{key_lt}
use wacs.Lmdb.Order.{starts_with, key_lt_trans_not}
use wacs.Db.Stored.{Entry, IsEntry, Sorted, IsBehind, entry_key, entry_item}
use wacs.Db.Times.{key_lt-log_key_bytes, key_lt-beginning}
use wacs.Db.Read.{Query}
use wacs.Db.Read.Walk.{from_key, visible_logs, visible_next}
use wacs.Db.Read.Exact.{matches, visible-cons, visible-behind, from_key-IsBehind}
use wacs.Db.Read.Complete.{
  LooksFor, All-zip, All-map, from_key_below, from_key_above, in_range, no_match_past,
  visible_at_miss,
}

pub starts_with-same : (p x : Bytes) → length p ≡ length x → starts_with p x ≡ true → x ≡ p
unfolding starts_with
starts_with-same [] [] h e = refl
starts_with-same [] (a ∷ x) h e = absurd (omega arith)
starts_with-same (b ∷ p) [] h e = absurd (omega arith)
starts_with-same (b ∷ p) (a ∷ x) h e = ground (arith, starts_with-same p x)

-- Two entries of one address, stored with one padding byte, stand in the order of their times.
later :
    (n m : Entry)
    → IsEntry n
    → IsEntry m
    → n.sa ≡ m.sa
    → n.key_pad ≡ m.key_pad
    → key_lt (entry_key n) (entry_key m) ≡ true
    → n.dt < m.dt
unfolding entry_key
later n m vn vm same pads h = ltb→lt n.dt m.dt (
    sym (key_lt-log_key_bytes m.key_pad b'L' m.sa n.dt m.dt vn.dt_u32 vm.dt_u32)
    ∙ ap₂ (λ a x. key_lt (log_key_bytes a b'L' x (swap32 n.dt)) (entry_key m)) (sym pads) (sym same)
    ∙ h)

pub not_below_address :
    (pad t : ℕ) (p x : Bytes)
    → key_lt x (log_key_bytes pad b'L' p (swap32 t)) ≡ false
    → key_lt x (b'L' ∷ p) ≡ false
unfolding log_key_bytes
not_below_address pad t p x h = key_lt-beginning x (b'L' ∷ p) (pad ∷ le_bytes 8 (swap32 t)) h

pub too_early :
    (pad t : ℕ) (p : Bytes) (n : Entry)
    → t < 2 ^ 32
    → n.key_pad ≡ pad
    → IsEntry n
    → n.sa ≡ p
    → key_lt (entry_key n) (log_key_bytes pad b'L' p (swap32 t)) ≡ true
    → n.dt < t
unfolding entry_key
too_early pad t p n small pads valid same h = ltb→lt n.dt t (
    sym (key_lt-log_key_bytes pad b'L' p n.dt t valid.dt_u32 small)
    ∙ ap₂
        (λ a x. key_lt (log_key_bytes a b'L' x (swap32 n.dt)) (log_key_bytes pad b'L' p (swap32 t)))
        (sym pads) (sym same)
    ∙ h)

module _ (q : Query) (p : Bytes) where
  none_in_range :
      (ns : List Entry)
      → All (λ n. (starts_with p n.sa && in_range q n.dt) ≡ false) ns
      → matches q p ns ≡ []
  unfolding matches
  none_in_range [] h = refl
  none_in_range (n ∷ ns) (e, h) = ground (arith, e, none_in_range ns h)

  visible_at_whole :
      (k : LogKey) (d : LogData) (rest : List (LogKey × Option LogData))
      → LooksFor q p
      → length p ≡ 6
      → starts_with p k.sa ≡ true
      → visible_next q 4 k b'L' d rest ≡ (
          if ltb_ℤ q.finish (pos k.dt)
          then []
          else if ltb_ℤ (pos k.dt) q.start
          then rest
          else (k, some d) ∷ rest)
  unfolding visible_next
  visible_at_whole k d rest looks whole hit = ground (arith, hit, looks.differs k.sa, looks.size)

  -- After an entry of the address that is too late, no entry matches.
  pub none_after_late :
      (n : Entry) (ns : List Entry)
      → length p ≡ 6
      → key_lt (entry_key n) (b'L' ∷ p) ≡ false
      → starts_with p n.sa ≡ true
      → ltb_ℤ q.finish (pos n.dt) ≡ true
      → IsEntry n
      → All IsEntry ns
      → All (λ m. n.key_pad ≡ m.key_pad) ns
      → All (λ m. key_lt (entry_key n) (entry_key m) ≡ true) ns
      → matches q p ns ≡ []
  none_after_late n ns whole above hit late valid valids pads sorted = none_in_range ns (
      All-zip {P = λ m. IsEntry m × (n.key_pad ≡ m.key_pad)} after_late ns
        (All-zip (λ m v e. (v, e)) ns valids pads) sorted)
    where
      after_late :
          (m : Entry)
          → IsEntry m × (n.key_pad ≡ m.key_pad)
          → key_lt (entry_key n) (entry_key m) ≡ true
          → (starts_with p m.sa && in_range q m.dt) ≡ false
      after_late m (v, e) lt = elim (Bool-cases (starts_with p m.sa)) [
        | inr miss ↦ ground (arith, miss)
        | inl same ↦ ground (
          arith,
          late,
          later n m valid v
              (starts_with-same p n.sa (omega (arith, valid.six)) hit
                ∙ sym (starts_with-same p m.sa (omega (arith, v.six)) same))
              e lt,
        )
      ]

module _ (past : Bytes → ℕ → ℕ) (q : Query) (p : Bytes) (looks : LooksFor q p)
    (whole : length p ≡ 6) (pad : ℕ) where
  visible_not_below :
      (ns : List Entry) (rest : List Item)
      → All IsEntry ns
      → All (λ n. n.key_pad ≡ pad) ns
      → Sorted ns
      → All IsBehind rest
      → All (λ n. key_lt (entry_key n) (b'L' ∷ p) ≡ false) ns
      → visible_logs past q (map entry_item ns ++ rest) ≡ matches q p ns
  unfolding matches
  visible_not_below [] rest valid pads sorted behind above = visible-behind past q rest behind
  visible_not_below (n ∷ ns) rest valid pads sorted behind above =
      let k : LogKey = record { sa = n.sa; dt = n.dt } in
      let tail = visible_logs past q (map entry_item ns ++ rest) in
      let ih = visible_not_below ns rest valid.1 pads.1 sorted.1 behind above.1 in
      visible-cons past q n (map entry_item ns ++ rest) valid.0
      ∙ elim (Bool-cases (starts_with p n.sa)) [
        | inl hit ↦
            visible_at_whole q p k n.entry_data tail looks whole hit
            ∙ elim (Bool-cases (ltb_ℤ q.finish (pos n.dt))) [
              | inl late ↦ ground (
                arith,
                hit,
                late,
                none_after_late q p n ns whole above.0 hit late valid.0 valid.1
                    (All-map (λ m e. pads.0 ∙ sym e) ns pads.1) sorted.0,
              )
              | inr ok ↦ ground (arith, hit, ok, ih)
            ]
        | inr miss ↦
            visible_at_miss q p looks k n.entry_data tail miss
            ∙ ground (
              arith,
              miss,
              no_match_past q p n ns (omega arith) above.0 miss valid.0 valid.1 sorted.0,
            )
      ]

  -- A search for a whole address delivers exactly the matching entries, where the range starts at
  -- the time in the key.
  pub visible-eq-matches_whole :
      (t : ℕ) (ns : List Entry) (rest : List Item)
      → t < 2 ^ 32
      → q.start ≡ pos t
      → All IsEntry ns
      → All (λ n. n.key_pad ≡ pad) ns
      → Sorted ns
      → All IsBehind rest
      → visible_logs past q
          (from_key (log_key_bytes pad b'L' p (swap32 t)) (map entry_item ns ++ rest))
        ≡ matches q p ns
  unfolding matches
  visible-eq-matches_whole t [] rest small start valid pads sorted behind =
      visible-behind past q (from_key (log_key_bytes pad b'L' p (swap32 t)) rest)
        (from_key-IsBehind (log_key_bytes pad b'L' p (swap32 t)) rest behind)
  visible-eq-matches_whole t (n ∷ ns) rest small start valid pads sorted behind =
      let k = log_key_bytes pad b'L' p (swap32 t) in
      elim (Bool-cases (key_lt (entry_key n) k)) [
        | inl below ↦
            ap (visible_logs past q) (from_key_below k n (map entry_item ns ++ rest) below)
            ∙ visible-eq-matches_whole t ns rest small start valid.1 pads.1 sorted.1 behind
            ∙ elim (Bool-cases (starts_with p n.sa)) [
              | inr miss ↦ ground (arith, miss)
              | inl hit ↦ ground (
                arith,
                hit,
                start,
                too_early pad t p n small pads.0 valid.0
                    (starts_with-same p n.sa (omega (arith, valid.0.six)) hit) below,
              )
            ]
        | inr above ↦
            ap (visible_logs past q) (from_key_above k n (map entry_item ns ++ rest) above)
            ∙ visible_not_below (n ∷ ns) rest valid pads sorted behind (
                All-map (λ m lt. not_below_address pad t p (entry_key m) lt) (n ∷ ns)
                  (
                    above,
                    All-map (λ m lt. key_lt_trans_not k (entry_key n) (entry_key m) above lt) ns
                        sorted.0,
                  ))
      ]
