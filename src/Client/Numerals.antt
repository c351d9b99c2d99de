-- ===== src/Client/Numerals.antt =====
-- The decimal text of a number, read back.
use mathlib.Core.Path.{subst}
use wacs.Prelude.{
  ℕ, zero, suc, ◌+◌, ◌-◌, ◌*◌, ◌/◌, ◌%◌, ◌^◌, ◌<◌, ◌≡◌, refl, ap, ◌∙◌, sym, true, false, Bool, [],
  ◌∷◌, ◌++◌, All, arith, ltb, if◌then◌else◌, Bool-cases, inl, inr, ltb→lt,
}
use wacs.Layout.{Bytes}
use wacs.Text.{digits, decimal}
use wacs.Client.LoadLog.{is_digit, value_of}

value_of-snoc :
    (n : ℕ) (ds : Bytes) (c : ℕ) → value_of n (ds ++ c ∷ []) ≡ value_of n ds * 10 + (c - 48)
unfolding value_of
value_of-snoc n [] c = refl
value_of-snoc n (d ∷ ds) c = value_of-snoc (n * 10 + (d - 48)) ds c

pow_suc : (k : ℕ) → 10 ^ suc k ≡ 10 * 10 ^ k
pow_suc k = omega arith

value_of-front :
    (n : ℕ) (ds : Bytes)
    → value_of 0 ds ≡ n / 10
    → value_of 0 (if ltb n 10 then [] else ds) ≡ n / 10
unfolding value_of
value_of-front n ds h = elim (Bool-cases (ltb n 10)) [
  | inl low ↦ ap (λ b. value_of 0 (if b then [] else ds)) low ∙ omega (arith, ltb→lt n 10 low)
  | inr high ↦ ap (λ b. value_of 0 (if b then [] else ds)) high ∙ h
]

-- What is read of the digits of a number is the number.
value_of-digits : (k n : ℕ) → n < 10 ^ k → value_of 0 (digits k n) ≡ n
unfolding digits value_of
value_of-digits zero n small = omega (arith, small)
value_of-digits (suc k) n small =
    value_of-snoc 0 (if ltb n 10 then [] else digits k (n / 10)) (b'0' + n % 10)
    ∙ ap (λ v. v * 10 + (b'0' + n % 10 - 48))
        (value_of-front n (digits k (n / 10))
          (value_of-digits k (n / 10) (omega (arith, small, pow_suc k))))
    ∙ omega arith

abbrev pub IsNumeral : Bytes → Type 0
IsNumeral ds = All (λ d. is_digit d ≡ true) ds

digit-IsNumeral : (n : ℕ) → is_digit (b'0' + n % 10) ≡ true
unfolding is_digit
digit-IsNumeral n = ground arith

snoc-shape :
    (ds : Bytes) (d : ℕ)
    → IsNumeral ds
    → is_digit d ≡ true
    → (c : ℕ) × (cs : Bytes) × (ds ++ d ∷ [] ≡ c ∷ cs) × IsNumeral (c ∷ cs)
snoc-shape [] d all h = (d, [], refl, (h, tt))
snoc-shape (x ∷ ds) d (k, all) h =
    let (c, cs, e, more) = snoc-shape ds d all h in (x, c ∷ cs, ap (λ r. x ∷ r) e, (k, more))

if-IsNumeral : (b : Bool) (ds : Bytes) → IsNumeral ds → IsNumeral (if b then [] else ds)
if-IsNumeral true ds all = tt
if-IsNumeral false ds all = all

digits-IsNumeral : (k n : ℕ) → IsNumeral (digits k n)
unfolding digits
digits-IsNumeral zero n = tt
digits-IsNumeral (suc k) n =
    let (c, cs, e, all) =
      snoc-shape (if ltb n 10 then [] else digits k (n / 10)) (b'0' + n % 10)
        (if-IsNumeral (ltb n 10) (digits k (n / 10)) (digits-IsNumeral k (n / 10)))
        (digit-IsNumeral n) in
    subst IsNumeral (sym e) all

-- The text of a number has a first digit.
pub decimal-shape : (n : ℕ) → (c : ℕ) × (cs : Bytes) × (decimal n ≡ c ∷ cs) × IsNumeral (c ∷ cs)
unfolding digits decimal
decimal-shape n =
    snoc-shape (if ltb n 10 then [] else digits 19 (n / 10)) (b'0' + n % 10)
      (if-IsNumeral (ltb n 10) (digits 19 (n / 10)) (digits-IsNumeral 19 (n / 10)))
      (digit-IsNumeral n)

pub value_of-decimal : (n : ℕ) → n < 2 ^ 16 → value_of 0 (decimal n) ≡ n
unfolding decimal
value_of-decimal n small = value_of-digits 20 n (omega (arith, small))
