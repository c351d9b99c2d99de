-- ===== src/Tests/Values.antt =====
-- Addresses, histograms and pages at concrete inputs.
use wacs.Prelude.{
  ℕ, ◌≡◌, ◌<◌, ◌+◌, ◌-◌, ◌*◌, ◌/◌, ◌%◌, ◌^◌, refl, ap, List, [], ◌∷◌, ◌++◌, map, pos, Option, none,
  length, take, drop, ltb, arith, if◌then◌else◌,
}
use wacs.Layout.{Bytes, LogKey, LogData}
use wacs.LogEntries.{hex2, hex_digit, ntoh_log_entry, hton_log_entry}
use wacs.LogEntries.Scan.{mactostr, mactostr2, strtomacaddress, Scanner, scanned, at_end}
use wacs.LogEntries.RoundTrip.{
  strtomacaddress-mactostr, strtomacaddress-mactostr2, hton_log_entry-ntoh_log_entry,
}
use wacs.Db.Query.{feed}
use wacs.Histogram.{HistogramMacsPerTime, count_at, on_log_histogram}
use wacs.Histogram.Bins.{times_in_step, on_log_histogram-times_in_step}
use wacs.Http.{ReqEnv, on_req_log, on_req_log_count}
use wacs.Http.Paging.{texts, feed-on_req_log, feed-on_req_log_count}
use wacs.Tests.Setup.{mac1, mac2, packet}

-- `%02x` on two hex digits, `0`-`9` and `a`-`f`.
abbrev digit_value : ℕ → ℕ
digit_value c = if ltb c 58 then c - 48 else c - 87

abbrev sscanf_02x : Scanner
sscanf_02x t = elim t [
  | [] ↦ at_end
  | a ∷ r ↦ elim r [
    | [] ↦ scanned (digit_value a) []
    | b ∷ r' ↦ scanned (digit_value a * 16 + digit_value b) r'
  ]
]

digit_value_hex : (d : ℕ) → d < 16 → digit_value (hex_digit d) ≡ d
unfolding hex_digit
digit_value_hex d h = ground (arith, h)

sscanf_hex2 : (b : ℕ) (rest : Bytes) → b < 256 → sscanf_02x (hex2 b ++ rest) ≡ scanned b rest
unfolding hex2
sscanf_hex2 b rest h =
    ap (λ n. scanned n rest)
      (omega (
        arith,
        digit_value_hex (b / 16) (omega (arith, h)),
        digit_value_hex (b % 16) (omega arith),
      ))

abbrev six : Bytes
six = 0 ∷ 236 ∷ 10 ∷ 237 ∷ 92 ∷ 85 ∷ []

strtomacaddress-mactostr_example : strtomacaddress sscanf_02x (mactostr six) ≡ (pos 6, six)
strtomacaddress-mactostr_example =
    strtomacaddress-mactostr sscanf_02x sscanf_hex2 0 236 10 237 92 85
      (omega arith, (omega arith, (omega arith, (omega arith, (omega arith, (omega arith, tt))))))

strtomacaddress-mactostr2_example :
    strtomacaddress sscanf_02x (mactostr2 (0 ∷ 236 ∷ []) 2) ≡ (pos 2, 0 ∷ 236 ∷ 0 ∷ 0 ∷ 0 ∷ 0 ∷ [])
strtomacaddress-mactostr2_example =
    strtomacaddress-mactostr2 sscanf_02x sscanf_hex2 0 (236 ∷ []) (omega arith, (omega arith, tt))
      (omega arith)

hton_log_entry-ntoh_log_entry_example : hton_log_entry (ntoh_log_entry packet) ≡ packet
hton_log_entry-ntoh_log_entry_example =
    hton_log_entry-ntoh_log_entry packet (omega arith) (omega arith)

abbrev records : List (LogKey × Option LogData)
records =
    (record { sa = mac1; dt = 12 }, none)
    ∷ (record { sa = mac2; dt = 17 }, none)
    ∷ (record { sa = mac1; dt = 31 }, none)
    ∷ []

abbrev hist0 : HistogramMacsPerTime
hist0 = record { step = 10; start = pos 10; finish = pos 30; histogram = [] }

on_log_histogram-times_in_step_example :
    count_at (pos 0) (feed on_log_histogram records hist0).histogram % 2 ^ 64
    ≡ (count_at (pos 0) hist0.histogram
        + times_in_step hist0 0 (map (λ (r : LogKey × Option LogData). pos r.0.dt) records))
      % 2 ^ 64
on_log_histogram-times_in_step_example =
    on_log_histogram-times_in_step hist0 (omega arith) (omega arith) 0 records tt

abbrev page : ReqEnv
page = record { retval = []; sum = 0; position = 0; offset = 1; count = 1 }

feed-on_req_log_example :
    (feed on_req_log records page).retval ≡ [] ++ texts (take 1 (drop 1 records))
feed-on_req_log_example = feed-on_req_log records page refl (omega arith)

feed-on_req_log_count_example :
    (feed on_req_log_count records page).sum % 2 ^ 32 ≡ (0 + length records) % 2 ^ 32
feed-on_req_log_count_example = feed-on_req_log_count records page
