-- ===== src/Client/Extract.antt =====
-- What `>>` extracts from a stream, as loadLog uses it: a word, a number and a character.
use wacs.Prelude.{
  ℕ, ◌-◌, ◌%◌, ◌^◌, ◌<◌, ◌≡◌, refl, ap, ◌∙◌, true, false, not, Bool, some, [], ◌∷◌, ◌++◌, All,
  arith, leb, if◌then◌else◌, Option, none, ◌==◌,
}
use wacs.Layout.{Bytes}
use wacs.Client.LoadLog.{
  is_space, is_digit, span, skip, not_empty, extract_word, extract_u16, u16_of, signed_u16,
  extract_i8, value_of,
}

span-All :
    (p : ℕ → Bool) (w : Bytes) (c : ℕ) (r : Bytes)
    → All (λ x. p x ≡ true) w
    → p c ≡ false
    → span p (w ++ c ∷ r) ≡ (w, c ∷ r)
unfolding span
span-All p [] c r all stop =
    ap (λ b. if b then (c ∷ (span p r).0, (span p r).1) else ([], c ∷ r)) stop
span-All p (x ∷ w) c r (h, all) stop =
    let rest = span p (w ++ c ∷ r) in
    ap (λ b. if b then (x ∷ rest.0, rest.1) else ([], x ∷ (w ++ c ∷ r))) h
    ∙ ap (λ v. (x ∷ v.0, v.1)) (span-All p w c r all stop)

abbrev pub IsWord : Bytes → Type 0
IsWord w = All (λ c. is_space c ≡ false) w

not_space : (w : Bytes) → IsWord w → All (λ c. not (is_space c) ≡ true) w
not_space [] all = tt
not_space (c ∷ cs) (h, all) = (ap not h, not_space cs all)

pub skip-here : (a : ℕ) (r : Bytes) → is_space a ≡ false → skip (some (a ∷ r)) ≡ a ∷ r
unfolding skip span
skip-here a r h =
    ap {A = Bool} {B = Bytes}
      (λ b.
        let both : Bytes × Bytes =
          if b then (a ∷ (span is_space r).0, (span is_space r).1) else ([], a ∷ r) in
        both.1)
      h

pub skip-tab : (a : ℕ) (r : Bytes) → is_space a ≡ false → skip (some (9 ∷ a ∷ r)) ≡ a ∷ r
unfolding skip span is_space
skip-tab a r h = skip-here a r h

-- A word with a tab behind it is extracted.
pub extract_word-reads :
    (a : ℕ) (w r : Bytes) (old : Bytes) (s : Option Bytes)
    → skip s ≡ a ∷ (w ++ 9 ∷ r)
    → IsWord (a ∷ w)
    → extract_word old s ≡ (a ∷ w, some (9 ∷ r))
unfolding extract_word not_empty is_space
extract_word-reads a w r old s at all =
    ap
      (λ b. elim (not_empty b) [
        | none ↦ (old, none)
        | some b ↦ ((span (λ c. not (is_space c)) b).0, some (span (λ c. not (is_space c)) b).1)
      ])
      at
    ∙ ap (λ v. (v.0, some v.1))
        (span-All (λ c. not (is_space c)) (a ∷ w) 9 r (not_space (a ∷ w) all) refl)

no_sign : (c : ℕ) → is_digit c ≡ true → (c == b'-') ≡ false
unfolding is_digit
no_sign c h = ground (arith, h)

no_plus : (c : ℕ) → is_digit c ≡ true → (c == b'+') ≡ false
unfolding is_digit
no_plus c h = ground (arith, h)

pub no_blank : (c : ℕ) → is_digit c ≡ true → is_space c ≡ false
unfolding is_digit is_space
no_blank c h = ground (arith, h)

in_range : (n : ℕ) → n < 2 ^ 16 → leb (2 ^ 16) n ≡ false
in_range n h = ground (arith, h)

-- A number with a tab behind it is extracted.
pub extract_u16-reads :
    (c : ℕ) (cs r : Bytes) (old : ℕ) (s : Option Bytes)
    → skip s ≡ c ∷ (cs ++ 9 ∷ r)
    → All (λ d. is_digit d ≡ true) (c ∷ cs)
    → value_of 0 (c ∷ cs) < 2 ^ 16
    → extract_u16 old s ≡ (value_of 0 (c ∷ cs), some (9 ∷ r))
unfolding extract_u16 not_empty signed_u16 u16_of is_digit
extract_u16-reads c cs r old s at (h, all) small =
    ap (λ b. elim (not_empty b) [ none ↦ (old, none) | some b ↦ signed_u16 b ]) at
    ∙ rw (no_sign c h) (
        rw (no_plus c h) (
          ap (u16_of false) (span-All is_digit (c ∷ cs) 9 r (h, all) refl)
          ∙ ap (λ b. if b then (2 ^ 16 - 1, none) else (value_of 0 (c ∷ cs), some (9 ∷ r)))
              (in_range (value_of 0 (c ∷ cs)) small)))

pub extract_i8-reads :
    (x old : ℕ) (tail : Bytes)
    → is_space x ≡ false
    → x < 256
    → extract_i8 old (some (9 ∷ x ∷ tail)) ≡ x
unfolding extract_i8
extract_i8-reads x old tail vis byte =
    ap (λ r. elim r [ [] ↦ old | c ∷ cs ↦ c % 256 ]) (skip-tab x tail vis) ∙ omega (arith, byte)
