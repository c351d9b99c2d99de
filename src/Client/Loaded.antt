-- ===== src/Client/Loaded.antt =====
-- What parseLogLine reads in a line.
use mathlib.Core.Path.{subst}
use wacs.Prelude.{ℕ, ◌%◌, ◌^◌, ◌<◌, ◌≡◌, refl, ap, ◌∙◌, sym, false, [], ◌∷◌, ◌++◌}
use wacs.Layout.{Bytes, LogRecord}
use wacs.LogEntries.Scan.{Scanner, strtomacaddress}
use wacs.Text.{decimal}
use wacs.Client.LoadLog.{Dates, parse_date, is_space, extract_i8, value_of, parse_log_line}
use wacs.Client.Extract.{
  IsWord, skip-here, skip-tab, no_blank, extract_word-reads, extract_u16-reads, extract_i8-reads,
}
use wacs.Client.Numerals.{IsNumeral, decimal-shape, value_of-decimal}

module _ (D : Dates) (scan : Scanner) where
  numeral_line :
      (retval : LogRecord) (a b : ℕ) (mac dt : Bytes) (c : ℕ) (cs : Bytes) (x : ℕ) (tail : Bytes)
      → IsWord (a ∷ mac)
      → IsWord (b ∷ dt)
      → IsNumeral (c ∷ cs)
      → value_of 0 (c ∷ cs) < 2 ^ 16
      → is_space x ≡ false
      → x < 256
      → parse_log_line D scan retval (a ∷ (mac ++ 9 ∷ b ∷ (dt ++ 9 ∷ c ∷ (cs ++ 9 ∷ x ∷ tail))))
        ≡ record {
          sa = (strtomacaddress scan (a ∷ mac)).1;
          dt = parse_date D (b ∷ dt) % 2 ^ 32;
          device_id = value_of 0 (c ∷ cs);
          ssi_signal = x;
        }
  unfolding parse_log_line extract_i8
  numeral_line retval a b mac dt c cs x tail wm wd num small vis byte =
      rw
        (extract_word-reads a mac (b ∷ (dt ++ 9 ∷ c ∷ (cs ++ 9 ∷ x ∷ tail))) [] _
          (skip-here a _ wm.0) wm)
        (rw (extract_word-reads b dt (c ∷ (cs ++ 9 ∷ x ∷ tail)) [] _ (skip-tab b _ wd.0) wd) (
          rw
            (extract_u16-reads c cs (x ∷ tail) retval.device_id _ (skip-tab c _ (no_blank c num.0))
              num small)
            (rw (extract_i8-reads x retval.ssi_signal tail vis byte) refl)))

  -- A line of an address, a date, a number of less than 16 bits in decimal, and a signal, with a tab
  -- between each, is read as the six bytes that strtomacaddress gives for the address, the low 32 bits
  -- of what parseDate gives for the date, the number, and the code of the signal's first character.
  pub parse_log_line-reads :
      (retval : LogRecord) (a b : ℕ) (mac dt : Bytes) (n x : ℕ) (tail : Bytes)
      → IsWord (a ∷ mac)
      → IsWord (b ∷ dt)
      → n < 2 ^ 16
      → is_space x ≡ false
      → x < 256
      → parse_log_line D scan retval (a ∷ (mac ++ 9 ∷ b ∷ (dt ++ 9 ∷ (decimal n ++ 9 ∷ x ∷ tail))))
        ≡ record {
          sa = (strtomacaddress scan (a ∷ mac)).1;
          dt = parse_date D (b ∷ dt) % 2 ^ 32;
          device_id = n;
          ssi_signal = x;
        }
  parse_log_line-reads retval a b mac dt n x tail wm wd small vis byte =
      let (c, cs, e, num) = decimal-shape n in
      let same : value_of 0 (c ∷ cs) ≡ n = ap (value_of 0) (sym e) ∙ value_of-decimal n small in
      ap (λ d. parse_log_line D scan retval (a ∷ (mac ++ 9 ∷ b ∷ (dt ++ 9 ∷ (d ++ 9 ∷ x ∷ tail)))))
        e
      ∙ numeral_line retval a b mac dt c cs x tail wm wd num
          (subst (λ v. v < 2 ^ 16) (sym same) small) vis byte
      ∙ ap
          (λ v. record {
            sa = (strtomacaddress scan (a ∷ mac)).1;
            dt = parse_date D (b ∷ dt) % 2 ^ 32;
            device_id = v;
            ssi_signal = x;
          })
          same
