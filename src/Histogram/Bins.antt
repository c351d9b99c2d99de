-- ===== src/Histogram/Bins.antt =====
-- Which times a bin of a histogram counts.
use native.Mathlib.Nat.{le-div_iff_mul-le, div-lt_iff_lt-mul, div-le_self}
use wacs.Prelude.{
  ℕ, suc, refl, neg_part, ◌-◌, ◌+◌, ◌*◌, ◌/◌, ◌%◌, ◌^◌, ◌<◌, ◌≤◌, ◌≡◌, ap, ◌∙◌, List, [], ◌∷◌, map,
  ℤ, pos, pos_part, ◌-ℤ◌, ltb_ℤ, eq_ℤ, ltb, leb, not, ◌&&◌, false, Bool, Option, if◌then◌else◌,
  arith, Bool-cases, inl, inr,
}
use wacs.Layout.{LogKey, LogData}
use wacs.Db.Query.{feed}
use wacs.Histogram.{HistogramMacsPerTime, to_int, bin, count_at, on_log_histogram}
use wacs.Histogram.Counts.{InOrder, times_in_bin, on_log_histogram-count_at}

-- How many seconds a time is behind the start.
abbrev pub behind : HistogramMacsPerTime → ℤ → ℕ
behind h t = pos_part (t -ℤ h.start)

-- A time is in the range, at least `i` steps behind its start, and less than `i + 1`.
abbrev pub in_step : HistogramMacsPerTime → ℕ → ℤ → Bool
in_step h i t =
    not (ltb_ℤ t h.start)
    && not (ltb_ℤ h.finish t)
    && (leb (i * h.step) (behind h t) && ltb (behind h t) ((i + 1) * h.step))

unfoldable pub times_in_step : HistogramMacsPerTime → ℕ → List ℤ → ℕ
times_in_step h i [] = 0
times_in_step h i (t ∷ ts) =
    let rest = times_in_step h i ts in if in_step h i t then suc rest else rest

-- A quotient that fits into an int is an index exactly where the number is between its multiples.
quotient_iff :
    (d step i : ℕ)
    → 0 < step
    → d < 2 ^ 31
    → eq_ℤ (to_int (d / step)) (pos i) ≡ (leb (i * step) d && ltb d ((i + 1) * step))
unfolding to_int
quotient_iff d step i some_step fits = ground (
  arith,
  div-le_self d step,
  (le-div_iff_mul-le {k = step} {x = i} {y = d} some_step).0,
  (le-div_iff_mul-le {k = step} {x = i} {y = d} some_step).1,
  (div-lt_iff_lt-mul {k = step} {x = d} {y = i + 1} some_step).0,
  (div-lt_iff_lt-mul {k = step} {x = d} {y = i + 1} some_step).1,
)

pos_part-sub : (a b : ℤ) → pos_part (a -ℤ b) ≡ (pos_part a + neg_part b) - (neg_part a + pos_part b)
pos_part-sub a b = ground arith

-- A time in the range is not further behind the start than the finish.
behind-finish :
    (h : HistogramMacsPerTime) (t : ℤ) → ltb_ℤ h.finish t ≡ false → behind h t ≤ behind h h.finish
behind-finish h t soon = ground (arith, pos_part-sub t h.start, pos_part-sub h.finish h.start, soon)

module _ (h : HistogramMacsPerTime) (some_step : 0 < h.step) (fits : behind h h.finish < 2 ^ 31)
    (i : ℕ) where
  same_step :
      (t : ℤ)
      → (not (ltb_ℤ t h.start) && not (ltb_ℤ h.finish t) && eq_ℤ (bin h t) (pos i)) ≡ in_step h i t
  unfolding bin
  same_step t = elim (Bool-cases (ltb_ℤ h.finish t)) [
    | inl late ↦ ground (arith, late)
    | inr soon ↦
        let known =
          quotient_iff (behind h t) h.step i some_step
            (omega (arith, fits, behind-finish h t soon)) in
        ap (λ b. not (ltb_ℤ t h.start) && not (ltb_ℤ h.finish t) && b) known
  ]

  times_in_bin-step : (ts : List ℤ) → times_in_bin h (pos i) ts ≡ times_in_step h i ts
  unfolding times_in_bin times_in_step
  times_in_bin-step [] = refl
  times_in_bin-step (t ∷ ts) =
      ap (λ b. if b then suc (times_in_bin h (pos i) ts) else times_in_bin h (pos i) ts)
        (same_step t)
      ∙ ap (λ n. if in_step h i t then suc n else n) (times_in_bin-step ts)

  -- Where the step is not 0, the range is shorter than 2^31 seconds and the bins are in order,
  -- onLogHistogram, called on a number of records, adds to the bin with index i the number of records
  -- whose time is in the range and at least i but less than i + 1 steps behind its start, modulo 2^64.
  pub on_log_histogram-times_in_step :
      (rs : List (LogKey × Option LogData))
      → InOrder h.histogram
      → count_at (pos i) (feed on_log_histogram rs h).histogram % 2 ^ 64
        ≡ (count_at (pos i) h.histogram
            + times_in_step h i (map (λ (r : LogKey × Option LogData). pos r.0.dt) rs))
          % 2 ^ 64
  on_log_histogram-times_in_step rs o =
      on_log_histogram-count_at rs h (pos i) o
      ∙ ap (λ n. (count_at (pos i) h.histogram + n) % 2 ^ 64)
          (times_in_bin-step (map (λ (r : LogKey × Option LogData). pos r.0.dt) rs))
