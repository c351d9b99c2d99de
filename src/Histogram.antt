-- ===== src/Histogram.antt =====
-- HistogramMacsPerTime of histogrammacspertime.cpp.
pub mod Counts
pub mod Bins
use wacs.Prelude.{
  ℕ, zero, suc, ◌+◌, ◌-◌, ◌*◌, ◌/◌, ◌%◌, ◌^◌, Option, List, [], ◌∷◌, ◌++◌, ℤ, pos, negsuc, pos_part,
  neg_part, ◌+ℤ◌, ◌-ℤ◌, ◌*ℤ◌, ltb_ℤ, eq_ℤ, Bool, true, false, ◌||◌, ltb, take, drop, length,
  if◌then◌else◌,
}
use wacs.Layout.{Bytes, LogKey, LogData}
use wacs.Text.{json_t, json_c, json_end, decimal, signed_decimal}

-- `std::map<int, size_t>`: the bins in the order of their indices.
abbrev pub Bins : Type 0
Bins = List (ℤ × ℕ)

pub record HistogramMacsPerTime : Type 0 where
  pub step : ℕ
  pub start : ℤ
  pub finish : ℤ
  pub histogram : Bins

-- The constructor.
unfoldable pub histogram_macs_per_time : ℤ → ℤ → ℤ → HistogramMacsPerTime
histogram_macs_per_time start finish step = record {
  step = if ltb_ℤ (pos 0) step then pos_part step else 1;
  start = start;
  finish = finish;
  histogram = [];
}

-- The conversion of a number that is not negative to an `int`.
unfoldable pub to_int : ℕ → ℤ
to_int n = let m = n % 2 ^ 32 in if ltb m (2 ^ 31) then pos m else negsuc (2 ^ 32 - 1 - m)

-- The index of the bin of a time that is not before the start.
unfoldable pub bin : HistogramMacsPerTime → ℤ → ℤ
unfolding to_int
bin h t = to_int (pos_part (t -ℤ h.start) / h.step)

-- `histogram[index]`; a missing bin is 0.
unfoldable pub count_at : ℤ → Bins → ℕ
count_at k [] = 0
count_at k ((j, c) ∷ bins) = if eq_ℤ j k then c else count_at k bins

-- `histogram[index] = histogram[index] + 1`
unfoldable pub increment : ℤ → Bins → Bins
increment k [] = (k, 1) ∷ []
increment k ((j, c) ∷ bins) =
    let rest = increment k bins in
    if eq_ℤ j k
    then (j, (c + 1) % 2 ^ 64) ∷ bins
    else if ltb_ℤ k j
    then (k, 1) ∷ (j, c) ∷ bins
    else (j, c) ∷ rest

-- put
unfoldable pub put : ℤ → HistogramMacsPerTime → HistogramMacsPerTime
unfolding bin increment
put t h =
    if ltb_ℤ t h.start || ltb_ℤ h.finish t
    then h
    else record h { histogram = increment (bin h t) h.histogram }

-- size: a quotient that truncates, as a `size_t`.
unfoldable pub size : HistogramMacsPerTime → ℕ
size h =
    let span = h.finish -ℤ h.start +ℤ pos 1 in
    if ltb_ℤ span (pos 0)
    then (2 ^ 64 - neg_part span / h.step) % 2 ^ 64
    else pos_part span / h.step

-- The loop of toJSON. The product of an index and the step is an `int`; for an index that put has made
-- it is at most the length of the range, and it is taken without an overflow.
unfoldable pub bins_json : HistogramMacsPerTime → Bins → Bytes
unfolding signed_decimal decimal
bins_json h [] = []
bins_json h ((k, c) ∷ bins) =
    let t = h.start +ℤ k *ℤ pos h.step in
    json_t ++ signed_decimal t ++ json_c ++ decimal c ++ json_end ++ bins_json h bins

-- `r[r.size() - 2] = ' '` for more than two bytes: the last comma.
unfoldable pub blank_last_comma : Bytes → Bytes
blank_last_comma r =
    if ltb 2 (length r) then take (length r - 2) r ++ b' ' ∷ drop (length r - 1) r else r

-- toJSON
unfoldable pub to_json : HistogramMacsPerTime → Bytes
unfolding bins_json blank_last_comma
to_json h = blank_last_comma (b'[' ∷ bins_json h h.histogram ++ b']' ∷ [])

-- onLogHistogram of the HTTP service.
unfoldable pub on_log_histogram :
    HistogramMacsPerTime → LogKey → Option LogData → Bool × HistogramMacsPerTime
unfolding put
on_log_histogram h key d = (false, put (pos key.dt) h)
