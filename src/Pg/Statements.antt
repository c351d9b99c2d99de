-- ===== src/Pg/Statements.antt =====
-- The statements of pglog.cpp, as bytes.
use wacs.Prelude.{ℕ, ◌-◌, ◌^◌, ℤ, pos, negsuc, [], ◌∷◌, ◌++◌, ltb, ltb_ℤ, pos_part, if◌then◌else◌}
use wacs.Layout.{Bytes}
use wacs.Text.{decimal, signed_decimal}
use wacs.LogEntries.Scan.{mactostr, mactostr2}

-- BEGIN
abbrev pub begin_stmt : Bytes
begin_stmt = b'B' ∷ b'E' ∷ b'G' ∷ b'I' ∷ b'N' ∷ []

-- END
abbrev pub end_stmt : Bytes
end_stmt = b'E' ∷ b'N' ∷ b'D' ∷ []

-- INSERT INTO loc(sa, dt, device_id, ssi_signal) VALUES (
abbrev pub insert_into : Bytes
insert_into =
    b'I' ∷ b'N' ∷ b'S' ∷ b'E' ∷ b'R' ∷ b'T' ∷ 32 ∷ b'I' ∷ b'N' ∷ b'T' ∷ b'O' ∷ 32 ∷ b'l' ∷ b'o'
    ∷ b'c' ∷ b'(' ∷ b's' ∷ b'a' ∷ b',' ∷ 32 ∷ b'd' ∷ b't' ∷ b',' ∷ 32 ∷ b'd' ∷ b'e' ∷ b'v' ∷ b'i'
    ∷ b'c' ∷ b'e' ∷ b'_' ∷ b'i' ∷ b'd' ∷ b',' ∷ 32 ∷ b's' ∷ b's' ∷ b'i' ∷ b'_' ∷ b's' ∷ b'i' ∷ b'g'
    ∷ b'n' ∷ b'a' ∷ b'l' ∷ b')' ∷ 32 ∷ b'V' ∷ b'A' ∷ b'L' ∷ b'U' ∷ b'E' ∷ b'S' ∷ 32 ∷ b'(' ∷ []

-- SELECT sa, dt, device_id, ssi_signal FROM loc WHERE sa LIKE
abbrev pub select_from : Bytes
select_from =
    b'S' ∷ b'E' ∷ b'L' ∷ b'E' ∷ b'C' ∷ b'T' ∷ 32 ∷ b's' ∷ b'a' ∷ b',' ∷ 32 ∷ b'd' ∷ b't' ∷ b',' ∷ 32
    ∷ b'd' ∷ b'e' ∷ b'v' ∷ b'i' ∷ b'c' ∷ b'e' ∷ b'_' ∷ b'i' ∷ b'd' ∷ b',' ∷ 32 ∷ b's' ∷ b's' ∷ b'i'
    ∷ b'_' ∷ b's' ∷ b'i' ∷ b'g' ∷ b'n' ∷ b'a' ∷ b'l' ∷ 32 ∷ b'F' ∷ b'R' ∷ b'O' ∷ b'M' ∷ 32 ∷ b'l'
    ∷ b'o' ∷ b'c' ∷ 32 ∷ b'W' ∷ b'H' ∷ b'E' ∷ b'R' ∷ b'E' ∷ 32 ∷ b's' ∷ b'a' ∷ 32 ∷ b'L' ∷ b'I'
    ∷ b'K' ∷ b'E' ∷ 32 ∷ []

-- ` AND dt <= `
abbrev pub and_dt_le : Bytes
and_dt_le = 32 ∷ b'A' ∷ b'N' ∷ b'D' ∷ 32 ∷ b'd' ∷ b't' ∷ 32 ∷ b'<' ∷ b'=' ∷ 32 ∷ []

-- ` AND dt >= `
abbrev pub and_dt_ge : Bytes
and_dt_ge = 32 ∷ b'A' ∷ b'N' ∷ b'D' ∷ 32 ∷ b'd' ∷ b't' ∷ 32 ∷ b'>' ∷ b'=' ∷ 32 ∷ []

-- `, `
abbrev pub comma : Bytes
comma = b',' ∷ 32 ∷ []

-- `(int) c` of an `int16_t`.
unfoldable pub from_i16 : ℕ → ℤ
from_i16 b = if ltb b (2 ^ 15) then pos b else negsuc (2 ^ 16 - 1 - b)

-- The INSERT of an address, a time, a device and a signal; 39 is the quote and 41 the bracket.
unfoldable pub insert_stmt : Bytes → ℕ → ℕ → ℤ → Bytes
unfolding mactostr decimal signed_decimal
insert_stmt sa dt device_id ssi_signal =
    insert_into
    ++ (39
        ∷ (mactostr sa
            ++ (39
                ∷ (comma
                    ++ (decimal dt
                        ++ (comma
                            ++ (decimal device_id
                                ++ (comma ++ (signed_decimal ssi_signal ++ 41 ∷ [])))))))))

-- The SELECT of readLog; 37 is the percent sign.
unfoldable pub select_stmt : Bytes → ℤ → ℤ → ℤ → Bytes
unfolding mactostr2 signed_decimal
select_stmt sa sa_size start finish =
    select_from
    ++ (39
        ∷ (mactostr2 sa (pos_part sa_size)
            ++ ((if ltb_ℤ sa_size (pos 6) then 37 ∷ 39 ∷ [] else 39 ∷ [])
                ++ (and_dt_le ++ (signed_decimal finish ++ (and_dt_ge ++ signed_decimal start))))))
