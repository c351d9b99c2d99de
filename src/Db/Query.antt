-- ===== src/Db/Query.antt =====
-- What the readers of dblog.cpp share: the time range, the comparison of addresses and the
-- callbacks. Each reader repeats these lines.
use wacs.Prelude.{
  ℕ, ◌-◌, ◌^◌, Bool, true, false, not, ◌&&◌, Option, none, some, List, [], ◌∷◌, ℤ, pos, take, eq_ℤ,
  ltb_ℤ, ◌==◌, if◌then◌else◌,
}
use wacs.Layout.{Bytes, LogKey, LogData, to_u32}
use wacs.Lmdb.{mdb_success}

abbrev pub fails : ℤ → Bool
fails r = not (eq_ℤ r mdb_success)

abbrev pub uint32_max : ℤ
uint32_max = pos (2 ^ 32 - 1)

-- A finish of 0 is no limit, and the ends are swapped, through a `uint32_t`, where they are in the
-- wrong order.
unfoldable pub time_range : ℤ → ℤ → ℤ × ℤ
unfolding to_u32
time_range start finish =
    let f = if eq_ℤ finish (pos 0) then uint32_max else finish in
    if ltb_ℤ f start then (f, pos (to_u32 start)) else (start, f)

unfoldable pub bytes_eq : Bytes → Bytes → Bool
bytes_eq [] [] = true
bytes_eq (a ∷ as') (b ∷ bs) = (a == b) && bytes_eq as' bs
bytes_eq _ _ = false

-- `sa` is not NULL and `memcmp(key.sa, sa, sz) != 0`.
unfoldable pub sa_differs : Option Bytes → ℕ → Bytes → Bool
unfolding bytes_eq
sa_differs none sz key_sa = false
sa_differs (some sa) sz key_sa = not (bytes_eq (take sz key_sa) (take sz sa))

-- `OnLog`: the answer true stops the reader.
abbrev pub OnLog : Type 0 → Type 0
OnLog E = E → LogKey → Option LogData → Bool × E

-- A callback called on records in turn until it asks to stop.
unfoldable pub feed : {E : Type 0} → OnLog E → List (LogKey × Option LogData) → E → E
feed f [] e = e
feed f ((k, d) ∷ rest) e = elim (f e k d).0 [ true ↦ (f e k d).1 | false ↦ feed f rest (f e k d).1 ]
