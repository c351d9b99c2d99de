-- ===== src/Histogram/Counts.antt =====
-- The bins of a histogram count what was put into them.
use wacs.Prelude.{
  ℕ, suc, ◌+◌, ◌%◌, ◌^◌, ◌≡◌, refl, ap, ◌∙◌, sym, List, [], ◌∷◌, map, ℤ, pos, ltb_ℤ, eq_ℤ, eq_ℤ_iff,
  true, not, ◌&&◌, ◌||◌, Option, if◌then◌else◌, arith, Bool-cases, inl, inr,
}
use wacs.Layout.{LogKey, LogData}
use wacs.Db.Query.{feed}
use wacs.Histogram.{HistogramMacsPerTime, Bins, bin, count_at, increment, put, on_log_histogram}

-- The bins stand in the order of their indices, each index once.
abbrev pub Above : ℤ → Bins → Type 0
Above k [] = Unit
Above k ((j, c) ∷ bins) = (ltb_ℤ k j ≡ true) × Above k bins

abbrev pub InOrder : Bins → Type 0
InOrder [] = Unit
InOrder ((j, c) ∷ bins) = Above j bins × InOrder bins

count_at-Above : (k : ℤ) (bins : Bins) → Above k bins → count_at k bins ≡ 0
unfolding count_at
count_at-Above k [] h = refl
count_at-Above k ((j, c) ∷ bins) h = ground (arith, h, count_at-Above k bins h.1)

Above-trans : (k j : ℤ) (bins : Bins) → ltb_ℤ k j ≡ true → Above j bins → Above k bins
Above-trans k j [] lt h = tt
Above-trans k j ((i, c) ∷ bins) lt h = (ground (arith, lt, h.0), Above-trans k j bins lt h.1)

increment-Above :
    (k j : ℤ) (bins : Bins) → ltb_ℤ j k ≡ true → Above j bins → Above j (increment k bins)
unfolding increment
increment-Above k j [] lt h = (lt, tt)
increment-Above k j ((i, c) ∷ bins) lt h = ground (arith, lt, h, increment-Above k j bins lt h.1)

-- An increment keeps the bins in order.
pub increment-InOrder : (k : ℤ) (bins : Bins) → InOrder bins → InOrder (increment k bins)
unfolding increment
increment-InOrder k [] h = (tt, tt)
increment-InOrder k ((j, c) ∷ bins) h = elim (Bool-cases (eq_ℤ j k)) [
  | inl same ↦ rw same h
  | inr other ↦ elim (Bool-cases (ltb_ℤ k j)) [
    | inl lt ↦ rw other (rw lt ((lt, Above-trans k j bins lt h.0), h))
    | inr ge ↦ rw other (
        rw ge
          (increment-Above k j bins (ground (arith, other, ge)) h.0, increment-InOrder k bins h.1))
  ]
]

-- An increment adds 1 to the bin of its index, modulo 2^64, and changes no other.
increment-count_at :
    (k i : ℤ) (bins : Bins)
    → InOrder bins
    → count_at i (increment k bins) % 2 ^ 64
      ≡ (count_at i bins + (if eq_ℤ k i then 1 else 0)) % 2 ^ 64
unfolding increment count_at
increment-count_at k i [] h = ground arith
increment-count_at k i ((j, c) ∷ bins) h = elim (Bool-cases (ltb_ℤ k j)) [
  | inl lt ↦ elim (Bool-cases (eq_ℤ k i)) [
    | inl same ↦ ground (
      arith,
      lt,
      same,
      (eq_ℤ_iff k i).0 same,
      count_at-Above k bins (Above-trans k j bins lt h.0),
      count_at-Above i bins
          (Above-trans i j bins (ap (λ x. ltb_ℤ x j) (sym ((eq_ℤ_iff k i).0 same)) ∙ lt) h.0),
    )
    | inr other ↦ ground (arith, lt, other)
  ]
  | inr ge ↦ ground (arith, ge, increment-count_at k i bins h.1)
]

-- `put` of many times in turn.
unfoldable pub put_all : List ℤ → HistogramMacsPerTime → HistogramMacsPerTime
unfolding put
put_all [] h = h
put_all (t ∷ ts) h = put_all ts (put t h)

-- How many of the times are in the range of a histogram and fall into the bin with index i.
unfoldable pub times_in_bin : HistogramMacsPerTime → ℤ → List ℤ → ℕ
unfolding bin
times_in_bin h i [] = 0
times_in_bin h i (t ∷ ts) =
    let rest = times_in_bin h i ts in
    if not (ltb_ℤ t h.start) && not (ltb_ℤ h.finish t) && eq_ℤ (bin h t) i then suc rest else rest

put-InOrder : (t : ℤ) (h : HistogramMacsPerTime) → InOrder h.histogram → InOrder (put t h).histogram
unfolding put
put-InOrder t h o = ground (arith, o, increment-InOrder (bin h t) h.histogram o)

same_range :
    (h : HistogramMacsPerTime) (b : Bins) (i : ℤ) (ts : List ℤ)
    → times_in_bin (record h { histogram = b }) i ts ≡ times_in_bin h i ts
unfolding times_in_bin bin
same_range h b i [] = refl
same_range h b i (t ∷ ts) =
    ap
      (λ n.
        if not (ltb_ℤ t h.start) && not (ltb_ℤ h.finish t) && eq_ℤ (bin h t) i then suc n else n)
      (same_range h b i ts)

-- A put keeps the range.
put-times_in_bin :
    (t : ℤ) (h : HistogramMacsPerTime) (i : ℤ) (ts : List ℤ)
    → times_in_bin (put t h) i ts ≡ times_in_bin h i ts
unfolding put
put-times_in_bin t h i ts = elim (Bool-cases (ltb_ℤ t h.start || ltb_ℤ h.finish t)) [
  | inl out ↦ rw out refl
  | inr ok ↦ rw ok (same_range h (increment (bin h t) h.histogram) i ts)
]

put-count_at :
    (t : ℤ) (h : HistogramMacsPerTime) (i : ℤ)
    → InOrder h.histogram
    → count_at i (put t h).histogram % 2 ^ 64
      ≡ (count_at i h.histogram + times_in_bin h i (t ∷ [])) % 2 ^ 64
unfolding put times_in_bin
put-count_at t h i o = ground (arith, increment-count_at (bin h t) i h.histogram o)

empty :
    (h : HistogramMacsPerTime) (i : ℤ)
    → count_at i h.histogram ≡ count_at i h.histogram + times_in_bin h i []
unfolding times_in_bin
empty h i = omega arith

times_in_bin-cons :
    (h : HistogramMacsPerTime) (i t : ℤ) (ts : List ℤ)
    → times_in_bin h i (t ∷ ts) ≡ times_in_bin h i (t ∷ []) + times_in_bin h i ts
unfolding times_in_bin
times_in_bin-cons h i t ts = ground arith

-- After a number of puts each bin has grown by the number of times in the range that fall into it,
-- modulo 2^64, and the bins are still in order.
pub put_all-count_at :
    (ts : List ℤ) (h : HistogramMacsPerTime) (i : ℤ)
    → InOrder h.histogram
    → (count_at i (put_all ts h).histogram % 2 ^ 64
        ≡ (count_at i h.histogram + times_in_bin h i ts) % 2 ^ 64)
      × InOrder (put_all ts h).histogram
unfolding put_all
put_all-count_at [] h i o = (ap (λ n. n % 2 ^ 64) (empty h i), o)
put_all-count_at (t ∷ ts) h i o =
    let rest = put_all-count_at ts (put t h) i (put-InOrder t h o) in
    (
      omega (
        arith,
        rest.0,
        put-times_in_bin t h i ts,
        put-count_at t h i o,
        times_in_bin-cons h i t ts,
      ),
      rest.1,
    )

-- The callback of the histogram puts the time of every record.
pub feed-on_log_histogram :
    (rs : List (LogKey × Option LogData)) (h : HistogramMacsPerTime)
    → feed on_log_histogram rs h ≡ put_all (map (λ (r : LogKey × Option LogData). pos r.0.dt) rs) h
unfolding feed on_log_histogram put_all
feed-on_log_histogram [] h = refl
feed-on_log_histogram ((k, d) ∷ rs) h = feed-on_log_histogram rs (put (pos k.dt) h)

-- onLogHistogram, called on a number of records, adds to each bin the number of records in the range
-- that fall into it, modulo 2^64, if the bins were in order.
pub on_log_histogram-count_at :
    (rs : List (LogKey × Option LogData)) (h : HistogramMacsPerTime) (i : ℤ)
    → InOrder h.histogram
    → count_at i (feed on_log_histogram rs h).histogram % 2 ^ 64
      ≡ (count_at i h.histogram
          + times_in_bin h i (map (λ (r : LogKey × Option LogData). pos r.0.dt) rs))
        % 2 ^ 64
on_log_histogram-count_at rs h i o =
    ap (λ (g : HistogramMacsPerTime). count_at i g.histogram % 2 ^ 64) (feed-on_log_histogram rs h)
    ∙ (put_all-count_at (map (λ (r : LogKey × Option LogData). pos r.0.dt) rs) h i o).0
