-- ===== src/Tests/Lines.antt =====
-- A line of the client's log at a concrete input.
use wacs.Prelude.{ℕ, ◌%◌, ◌^◌, ◌≡◌, refl, none, [], ◌∷◌, ◌++◌, arith}
use wacs.LogEntries.Scan.{Scanner, at_end, strtomacaddress}
use wacs.Text.{decimal}
use wacs.Client.LoadLog.{Dates, parse_date, parse_log_line, is_space}
use wacs.Client.Loaded.{parse_log_line-reads}
use wacs.Tests.Setup.{record1}

abbrev scanner : Scanner
scanner b = at_end

abbrev dates : Dates
dates = record { Tm = ℕ; strptime = λ b. none; mktime = λ t. t; strtol = λ b. 1500 }

-- "aa 9 1 -76", with tabs: the signal is read as the code of the minus sign.
parse_log_line-reads_example :
    parse_log_line dates scanner record1
      (b'a' ∷ ((b'a' ∷ []) ++ 9 ∷ b'9' ∷ ([] ++ 9 ∷ (decimal 1 ++ 9 ∷ b'-' ∷ b'7' ∷ b'6' ∷ []))))
    ≡ record {
      sa = (strtomacaddress scanner (b'a' ∷ b'a' ∷ [])).1;
      dt = parse_date dates (b'9' ∷ []) % 2 ^ 32;
      device_id = 1;
      ssi_signal = b'-';
    }
unfolding is_space
parse_log_line-reads_example =
    parse_log_line-reads dates scanner record1 b'a' b'9' (b'a' ∷ []) [] 1 b'-' (b'7' ∷ b'6' ∷ [])
      (refl, (refl, tt)) (refl, tt) (omega arith) refl (omega arith)
