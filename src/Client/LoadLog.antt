-- ===== src/Client/LoadLog.antt =====
-- The lines that loadLog of wacsc.cpp reads: parseLogLine, onPutLogEntry, and parseDate of
-- utilstring.cpp. What a C++ stream extracts with `>>` is written out.
use wacs.Prelude.{
  ℕ, ◌+◌, ◌-◌, ◌*◌, ◌%◌, ◌^◌, Bool, true, false, not, ◌&&◌, ◌||◌, Option, none, some, List, [], ◌∷◌,
  leb, ◌==◌, if◌then◌else◌,
}
use wacs.Layout.{Bytes, LogRecord}
use wacs.LogEntries.Scan.{Scanner, strtomacaddress}

-- The C library's part of parseDate: strptime with "%FT%T" into a zeroed `struct tm`, mktime, and
-- strtol with any base. A `time_t` is its bit pattern.
pub record Dates : Type 1 where
  pub Tm : Type 0
  pub strptime : Bytes → Option Tm
  pub mktime : Tm → ℕ
  pub strtol : Bytes → ℕ

-- parseDate: a date and time, or seconds.
unfoldable pub parse_date : Dates → Bytes → ℕ
parse_date D v = elim (D.strptime v) [ none ↦ D.strtol v | some tm ↦ D.mktime tm ]

unfoldable pub is_space : ℕ → Bool
is_space c = (c == 32) || (leb 9 c && leb c 13)

unfoldable pub is_digit : ℕ → Bool
is_digit c = leb 48 c && leb c 57

-- The bytes of the front that have a property, and the others.
unfoldable pub span : (ℕ → Bool) → Bytes → Bytes × Bytes
span p [] = ([], [])
span p (c ∷ cs) = let rest = span p cs in if p c then (c ∷ rest.0, rest.1) else ([], c ∷ cs)

-- A stream is what is left to read, or `none` where it has failed. `>>` skips blanks, and where it finds
-- the end it fails and leaves its variable.
unfoldable pub skip : Option Bytes → Bytes
unfolding span
skip none = []
skip (some s) = (span is_space s).1

unfoldable pub not_empty : Bytes → Option Bytes
not_empty [] = none
not_empty (c ∷ cs) = some (c ∷ cs)

-- `>>` to a std::string: a word.
unfoldable pub extract_word : Bytes → Option Bytes → Bytes × Option Bytes
unfolding span skip not_empty
extract_word old s = elim (not_empty (skip s)) [
  | none ↦ (old, none)
  | some b ↦ ((span (λ c. not (is_space c)) b).0, some (span (λ c. not (is_space c)) b).1)
]

-- The value of digits behind a value.
unfoldable pub value_of : ℕ → Bytes → ℕ
value_of n [] = n
value_of n (c ∷ cs) = value_of (n * 10 + (c - 48)) cs

-- `>>` to a uint16_t, of the digits behind the sign: none fails with 0, too large a number with the
-- largest; a minus sign negates.
unfoldable pub u16_of : Bool → Bytes × Bytes → ℕ × Option Bytes
unfolding value_of
u16_of minus ([], s) = (0, none)
u16_of minus (c ∷ cs, s) =
    let n = value_of 0 (c ∷ cs) in
    if leb (2 ^ 16) n
    then (2 ^ 16 - 1, none)
    else (if minus then (2 ^ 16 - n) % 2 ^ 16 else n, some s)

unfoldable pub signed_u16 : Bytes → ℕ × Option Bytes
unfolding u16_of span
signed_u16 [] = (0, none)
signed_u16 (c ∷ cs) =
    if c == b'-'
    then u16_of true (span is_digit cs)
    else if c == b'+'
    then u16_of false (span is_digit cs)
    else u16_of false (span is_digit (c ∷ cs))

unfoldable pub extract_u16 : ℕ → Option Bytes → ℕ × Option Bytes
unfolding skip not_empty signed_u16
extract_u16 old s = elim (not_empty (skip s)) [ none ↦ (old, none) | some b ↦ signed_u16 b ]

-- `>>` to an int8_t, which is a character type: one character.
unfoldable pub extract_i8 : ℕ → Option Bytes → ℕ
unfolding skip
extract_i8 old s = elim (skip s) [ [] ↦ old | c ∷ cs ↦ c % 256 ]

module _ (D : Dates) (scan : Scanner) where
  -- parseLogLine into a record.
  unfoldable pub parse_log_line : LogRecord → Bytes → LogRecord
  unfolding extract_word extract_u16 extract_i8 strtomacaddress parse_date
  parse_log_line retval line =
      let (mac, s1) = extract_word [] (some line) in
      let (dt, s2) = extract_word [] s1 in
      let (device_id, s3) = extract_u16 retval.device_id s2 in
      record {
        sa = (strtomacaddress scan mac).1;
        dt = parse_date D dt % 2 ^ 32;
        device_id = device_id;
        ssi_signal = extract_i8 retval.ssi_signal s3;
      }

  -- onPutLogEntry over the lines that the stream has left, and `none` for NULL or a bad stream.
  unfoldable pub on_put_log_entry :
      Option (List Bytes) → LogRecord → Bool × Option (List Bytes) × LogRecord
  unfolding parse_log_line
  on_put_log_entry none retval = (true, none, retval)
  on_put_log_entry (some []) retval = (true, some [], retval)
  on_put_log_entry (some (line ∷ lines)) retval = (false, some lines, parse_log_line retval line)

  -- The records that the loop of putLogEntries gets from its callback, which fills one record again and
  -- again.
  unfoldable pub records_of : List Bytes → LogRecord → List LogRecord
  unfolding on_put_log_entry
  records_of [] retval = []
  records_of (line ∷ lines) retval =
      let got = (on_put_log_entry (some (line ∷ lines)) retval).2 in got ∷ records_of lines got
