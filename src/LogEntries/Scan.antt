-- ===== src/LogEntries/Scan.antt =====
-- mactostr, mactostr2 and strtomacaddress of hostapd-log-entry.cpp. The conversion `%02x` of sscanf
-- is the parameter `scan`.
use wacs.Prelude.{
  ℕ, zero, suc, ◌-◌, ◌%◌, [], ◌∷◌, ◌++◌, ℤ, pos, negsuc, Option, none, some, take, length,
  replicate, get_or, ltb, ◌==◌, if◌then◌else◌,
}
use wacs.Layout.{Bytes}
use wacs.LogEntries.{hex2}

unfoldable pub mactostr : Bytes → Bytes
unfolding hex2
mactostr p =
    hex2 (get_or p 0 0)
    ++ b':' ∷ hex2 (get_or p 1 0)
    ++ b':' ∷ hex2 (get_or p 2 0)
    ++ b':' ∷ hex2 (get_or p 3 0)
    ++ b':' ∷ hex2 (get_or p 4 0)
    ++ b':' ∷ hex2 (get_or p 5 0)

-- The loop of mactostr2: each byte and a colon.
unfoldable pub with_colons : Bytes → Bytes
unfolding hex2
with_colons [] = []
with_colons (b ∷ p) = hex2 b ++ b':' ∷ with_colons p

unfoldable pub mactostr2 : Bytes → ℕ → Bytes
unfolding with_colons
mactostr2 p size =
    let r = with_colons (take size p) in if ltb 1 (length r) then take (length r - 1) r else r

-- A conversion: the end of the input before it, no match, or a number and the rest of the input.
pub data Scanned : Type 0 where
  at_end : Scanned
  no_match : Scanned
  scanned : ℕ → Bytes → Scanned

abbrev pub Scanner : Type 0
Scanner = Bytes → Scanned

-- The input behind a colon.
unfoldable pub past_colon : Bytes → Option Bytes
past_colon [] = none
past_colon (c ∷ t) = if c == b':' then some t else none

-- Up to `n` conversions with a colon between them, and the bytes they store.
unfoldable pub scan_bytes : Scanner → ℕ → Bytes → Bytes
unfolding past_colon
scan_bytes scan zero text = []
scan_bytes scan (suc n) text = elim (scan text) [
  | scanned v rest ↦ v % 256 ∷ elim (past_colon rest) [ none ↦ [] | some t ↦ scan_bytes scan n t ]
  | _ ↦ []
]

-- What sscanf answers where no conversion succeeds.
unfoldable pub scan_none : Scanned → ℤ
scan_none at_end = negsuc 0
scan_none _ = pos 0

-- strtomacaddress: the answer of sscanf, and the six bytes.
unfoldable pub strtomacaddress : Scanner → Bytes → ℤ × Bytes
unfolding scan_bytes scan_none
strtomacaddress scan value =
    let v = scan_bytes scan 6 value in
    (
      if ltb 0 (length v) then pos (length v) else scan_none (scan value),
      v ++ replicate (6 - length v) 0,
    )
