-- ===== src/Layout/RoundTrip.antt =====
-- What is stored in a record is what is read back from its bytes.
use wacs.Prelude.{ℕ, ◌%◌, ◌^◌, ◌<◌, ◌≡◌, refl, [], ◌∷◌, arith, length}
use wacs.Layout.{Bytes, le_bytes, from_le, swap16, swap32}
use wacs.Layout.{LogData, log_key_bytes, log_data_bytes, tag_at, sa_at, dt_at, time_at, log_data_at}

pub swap16_twice : (x : ℕ) → swap16 (swap16 x) ≡ x % 2 ^ 16
unfolding swap16
swap16_twice x = omega arith

pub swap32_twice : (x : ℕ) → swap32 (swap32 x) ≡ x % 2 ^ 32
unfolding swap32
swap32_twice x = omega arith

pub swap32-lt : (x : ℕ) → swap32 x < 2 ^ 32
unfolding swap32
swap32-lt x = omega arith

pub from_le-le_bytes8 : (x : ℕ) → x < 2 ^ 64 → from_le (le_bytes 8 x) ≡ x
unfolding from_le le_bytes
from_le-le_bytes8 x h = omega arith

module _ (past : Bytes → ℕ → ℕ) where
  pub tag_at-log_key_bytes :
      (pad tag : ℕ) (sa : Bytes) (dt : ℕ) → tag_at past (log_key_bytes pad tag sa dt) ≡ tag
  unfolding tag_at log_key_bytes
  tag_at-log_key_bytes pad tag sa dt = refl

  pub sa_at-log_key_bytes :
      (pad tag : ℕ) (sa : Bytes) (dt : ℕ)
      → length sa ≡ 6
      → sa_at past (log_key_bytes pad tag sa dt) ≡ sa
  unfolding sa_at log_key_bytes
  sa_at-log_key_bytes pad tag (a ∷ b ∷ c ∷ d ∷ e ∷ f ∷ []) dt h = refl
  sa_at-log_key_bytes pad tag _ dt h = absurd (omega arith)

  pub dt_at-log_key_bytes :
      (pad tag : ℕ) (sa : Bytes) (dt : ℕ)
      → length sa ≡ 6
      → dt < 2 ^ 64
      → dt_at past (log_key_bytes pad tag sa dt) ≡ dt
  unfolding dt_at log_key_bytes
  dt_at-log_key_bytes pad tag (a ∷ b ∷ c ∷ d ∷ e ∷ f ∷ []) dt h lt = omega arith
  dt_at-log_key_bytes pad tag _ dt h lt = absurd (omega arith)

  pub time_at-le_bytes : (dt : ℕ) → dt < 2 ^ 64 → time_at past (le_bytes 8 dt) ≡ dt
  unfolding time_at le_bytes
  time_at-le_bytes dt lt = omega arith

  pub log_data_at-log_data_bytes :
      (pad : ℕ) (d : LogData)
      → d.device_id < 2 ^ 16
      → d.ssi_signal < 2 ^ 8
      → log_data_at past (log_data_bytes pad d) ≡ d
  unfolding log_data_at log_data_bytes
  log_data_at-log_data_bytes pad d h k = ground arith
