-- ===== src/Text.antt =====
-- Numbers as a C++ stream prints them.
use wacs.Prelude.{
  ℕ, zero, suc, ◌+◌, ◌-◌, ◌/◌, ◌%◌, [], ◌∷◌, ◌++◌, ℤ, pos, negsuc, ltb, if◌then◌else◌,
}
use wacs.Layout.{Bytes}

-- The decimal digits of a number of at most as many digits as there is fuel.
unfoldable pub digits : ℕ → ℕ → Bytes
digits zero n = []
digits (suc fuel) n =
    let high = digits fuel (n / 10) in (if ltb n 10 then [] else high) ++ (b'0' + n % 10) ∷ []

-- 20 digits are enough for 64 bits.
unfoldable pub decimal : ℕ → Bytes
unfolding digits
decimal n = digits 20 n

unfoldable pub signed_decimal : ℤ → Bytes
unfolding decimal
signed_decimal (pos n) = decimal n
signed_decimal (negsuc n) = b'-' ∷ decimal (n + 1)

-- `(int) c` of an `int8_t`.
unfoldable pub from_i8 : ℕ → ℤ
from_i8 b = if ltb b 128 then pos b else negsuc (255 - b)

-- `{"t":`
abbrev pub json_t : Bytes
json_t = b'{' ∷ 34 ∷ b't' ∷ 34 ∷ b':' ∷ []

-- `, "c":`
abbrev pub json_c : Bytes
json_c = b',' ∷ b' ' ∷ 34 ∷ b'c' ∷ 34 ∷ b':' ∷ []

-- `},`
abbrev pub json_end : Bytes
json_end = b'}' ∷ b',' ∷ []

-- `{"sa":"`
abbrev pub json_sa : Bytes
json_sa = b'{' ∷ 34 ∷ b's' ∷ b'a' ∷ 34 ∷ b':' ∷ 34 ∷ []

-- `","dt":`
abbrev pub json_dt : Bytes
json_dt = 34 ∷ b',' ∷ 34 ∷ b'd' ∷ b't' ∷ 34 ∷ b':' ∷ []

-- `,"device_id":`
abbrev pub json_device_id : Bytes
json_device_id =
    b',' ∷ 34 ∷ b'd' ∷ b'e' ∷ b'v' ∷ b'i' ∷ b'c' ∷ b'e' ∷ b'_' ∷ b'i' ∷ b'd' ∷ 34 ∷ b':' ∷ []

-- `,"ssi_signal":`
abbrev pub json_ssi_signal : Bytes
json_ssi_signal =
    b',' ∷ 34 ∷ b's' ∷ b's' ∷ b'i' ∷ b'_' ∷ b's' ∷ b'i' ∷ b'g' ∷ b'n' ∷ b'a' ∷ b'l' ∷ 34 ∷ b':' ∷ []
