-- ===== src/Layout/Numbers.antt =====
-- Bytes, little-endian numbers and the byte swaps of <endian.h>.
use wacs.Prelude.{ℕ, zero, suc, ◌+◌, ◌*◌, ◌/◌, ◌%◌, ◌^◌, List, [], ◌∷◌, get_or}

abbrev pub Bytes : Type 0
Bytes = List ℕ

-- The `n` low bytes of a number, the lowest first.
unfoldable pub le_bytes : ℕ → ℕ → Bytes
le_bytes zero x = []
le_bytes (suc n) x = (x % 256) ∷ le_bytes n (x / 256)

unfoldable pub from_le : Bytes → ℕ
from_le [] = 0
from_le (b ∷ bs) = b + 256 * from_le bs

-- htons, ntohs
unfoldable pub swap16 : ℕ → ℕ
swap16 x = x % 256 * 256 + x / 256 % 256

-- htobe32, be32toh
unfoldable pub swap32 : ℕ → ℕ
swap32 x = x % 256 * 2 ^ 24 + x / 2 ^ 8 % 256 * 2 ^ 16 + x / 2 ^ 16 % 256 * 2 ^ 8 + x / 2 ^ 24 % 256

-- The byte at an offset; past the end it is what memory happens to hold.
unfoldable pub byte_at : (Bytes → ℕ → ℕ) → Bytes → ℕ → ℕ
byte_at past b i = get_or b i (past b i)
