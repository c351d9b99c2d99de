-- ===== src/Db/Times.antt =====
-- The order of the keys of one address is the order of their times: `dt` is stored big-endian.
use mathlib.Core.Path.{ap₂}
use wacs.Prelude.{ℕ, ◌/◌, ◌%◌, ◌^◌, ◌<◌, ◌≡◌, refl, ◌∙◌, false, [], ◌∷◌, ◌++◌, arith, ltb}
use wacs.Layout.{Bytes, le_bytes, swap32, log_key_bytes}
use wacs.Lmdb.Shelf.{key_lt}

-- The bytes that `htobe32` leaves in memory.
be_bytes : ℕ → Bytes
be_bytes t = t / 2 ^ 24 ∷ t / 2 ^ 16 % 256 ∷ t / 2 ^ 8 % 256 ∷ t % 256 ∷ 0 ∷ 0 ∷ 0 ∷ 0 ∷ []

le_bytes-swap32 : (t : ℕ) → t < 2 ^ 32 → le_bytes 8 (swap32 t) ≡ be_bytes t
unfolding le_bytes swap32 be_bytes
le_bytes-swap32 t h = ground arith

key_lt-be_bytes : (s t : ℕ) → s < 2 ^ 32 → t < 2 ^ 32 → key_lt (be_bytes s) (be_bytes t) ≡ ltb s t
unfolding key_lt be_bytes
key_lt-be_bytes s t hs ht = ground arith

pub key_lt-common : (x y z : Bytes) → key_lt (x ++ y) (x ++ z) ≡ key_lt y z
unfolding key_lt
key_lt-common [] y z = refl
key_lt-common (a ∷ x) y z = ground (arith, key_lt-common x y z)

-- With one address and one padding byte, the order of the keys is the order of the times.
pub key_lt-log_key_bytes :
    (pad tag : ℕ) (sa : Bytes) (s t : ℕ)
    → s < 2 ^ 32
    → t < 2 ^ 32
    → key_lt (log_key_bytes pad tag sa (swap32 s)) (log_key_bytes pad tag sa (swap32 t)) ≡ ltb s t
unfolding log_key_bytes
key_lt-log_key_bytes pad tag sa s t hs ht =
    key_lt-common (tag ∷ sa) (pad ∷ le_bytes 8 (swap32 s)) (pad ∷ le_bytes 8 (swap32 t))
    ∙ key_lt-common (pad ∷ []) (le_bytes 8 (swap32 s)) (le_bytes 8 (swap32 t))
    ∙ ap₂ key_lt (le_bytes-swap32 s hs) (le_bytes-swap32 t ht)
    ∙ key_lt-be_bytes s t hs ht

-- A key that is not below some bytes is not below their beginning.
pub key_lt-beginning : (x p y : Bytes) → key_lt x (p ++ y) ≡ false → key_lt x p ≡ false
unfolding key_lt
key_lt-beginning x [] y h = refl
key_lt-beginning [] (b ∷ p) y h = cc
key_lt-beginning (a ∷ x) (b ∷ p) y h = ground (arith, key_lt-beginning x p y)
