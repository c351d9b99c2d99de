-- ===== src/Writer/Loop.antt =====
-- The loop of lmdbwriter.cpp and pgwriter.cpp: rounds until a request to stop.
use wacs.Prelude.{
  ◌≡◌, ap, ◌∙◌, true, false, Bool, ◌||◌, Option, none, some, List, [], ◌∷◌, arith, inl, inr,
  Bool-cases, if◌then◌else◌,
}

module _ {ℓ κ} {R : Type κ} {C : Type ℓ} (stopped : C → Bool) (turn : R → C → C) where
  -- The loop, over what happens in its rounds; `none` is a loop that goes on behind them.
  unfoldable pub loop_until : List R → C → Option C
  loop_until [] c = if stopped c then some c else none
  loop_until (t ∷ ts) c = let rest = loop_until ts (turn t c) in if stopped c then some c else rest

  stops : (t : R) (ts : List R) (c : C) → stopped c ≡ true → loop_until (t ∷ ts) c ≡ some c
  unfolding loop_until
  stops t ts c h = ap (λ b. if b then some c else loop_until ts (turn t c)) h

  goes_on :
      (t : R) (ts : List R) (c : C)
      → stopped c ≡ false
      → loop_until (t ∷ ts) c ≡ loop_until ts (turn t c)
  unfolding loop_until
  goes_on t ts c h = ap (λ b. if b then some c else loop_until ts (turn t c)) h

  pub at_rest : (ts : List R) (c : C) → stopped c ≡ true → loop_until ts c ≡ some c
  unfolding loop_until
  at_rest [] c h = ap (λ b. if b then some c else none) h
  at_rest (t ∷ ts) c h = stops t ts c h

or_true : (b : Bool) → (b || true) ≡ true
or_true b = ground arith

unfoldable pub any {ℓ} : {R : Type ℓ} → (R → Bool) → List R → Bool
any p [] = false
any p (t ∷ ts) = p t || any p ts

module _ {ℓ κ ι} {R : Type κ} {C : Type ℓ} (stopped : C → Bool) (turn : R → C → C)
    (signalled : R → Bool) (Inv : C → Type ι)
    (turn-stops : (t : R) (c : C) → (stopped c || signalled t) ≡ true → stopped (turn t c) ≡ true)
    (turn-Inv : (t : R) (c : C) → Inv c → Inv (turn t c)) where
  -- Where a round of the list has a signal, the loop ends, and keeps what each round keeps.
  pub loop_until-ends :
      (ts : List R) (c : C)
      → any signalled ts ≡ true
      → Inv c
      → (c' : C) × (loop_until stopped turn ts c ≡ some c') × Inv c'
  unfolding any
  loop_until-ends [] c h k = cc
  loop_until-ends (t ∷ ts) c h k = elim (Bool-cases (stopped c)) [
    | inl on ↦ (c, stops stopped turn t ts c on, k)
    | inr off ↦ elim (Bool-cases (signalled t)) [
      | inl now ↦ (
        turn t c,
        goes_on stopped turn t ts c off
            ∙ at_rest stopped turn ts (turn t c)
                (turn-stops t c (ap (λ b. stopped c || b) now ∙ or_true (stopped c))),
        turn-Inv t c k,
      )
      | inr later ↦
          let (c', e, k') =
            loop_until-ends ts (turn t c) (ground (arith, later, h)) (turn-Inv t c k) in
          (c', goes_on stopped turn t ts c off ∙ e, k')
    ]
  ]
