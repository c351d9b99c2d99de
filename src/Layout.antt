-- ===== src/Layout.antt =====
-- The records of dblog.h and hostapd-log-entry.h as the bytes that they occupy in memory, on the
-- 64-bit little-endian target: `time_t` has eight bytes, so `LogKey` has a padding byte behind the
-- MAC address, and `LogData` has one behind the signal. What the code leaves uninitialised, or
-- reads past the end of a record, is an argument.
mod Numbers
pub mod RoundTrip
pub use Numbers.{Bytes}
unfoldable pub use Numbers.{le_bytes, from_le, swap16, swap32, byte_at}
use wacs.Prelude.{
  ℕ, ◌+◌, ◌-◌, ◌%◌, ◌^◌, List, [], ◌∷◌, ◌++◌, map, ℤ, pos, negsuc, take, replicate, Option, none,
  some, ltb, leb, if◌then◌else◌,
}

-- `LogEntry`, the packet: 16-bit fields as bit patterns.
pub record LogEntry : Type 0 where
  pub device_id : ℕ
  pub ssi_signal : ℕ
  pub sa : Bytes

-- `LogKey` as the callbacks see it: the code fills `sa` and `dt` only.
pub record LogKey : Type 0 where
  pub sa : Bytes
  pub dt : ℕ

-- `LogData`; the signal is the bit pattern of an `int8_t`.
pub record LogData : Type 0 where
  pub device_id : ℕ
  pub ssi_signal : ℕ

-- `LogRecord`, a line of a log file.
pub record LogRecord : Type 0 where
  pub sa : Bytes
  pub dt : ℕ
  pub device_id : ℕ
  pub ssi_signal : ℕ

-- sizeof
abbrev pub sizeof_log_entry : ℕ
sizeof_log_entry = 10

abbrev pub sizeof_log_key : ℕ
sizeof_log_key = 16

abbrev pub sizeof_last_probe_key : ℕ
sizeof_last_probe_key = 7

abbrev pub sizeof_log_data : ℕ
sizeof_log_data = 4

abbrev pub sizeof_time_t : ℕ
sizeof_time_t = 8

-- A `LogKey` in memory: tag, address, the padding byte, and `dt` as it is stored.
unfoldable pub log_key_bytes : ℕ → ℕ → Bytes → ℕ → Bytes
unfolding le_bytes
log_key_bytes pad tag sa dt = tag ∷ (sa ++ pad ∷ le_bytes 8 dt)

-- A `LastProbeKey`: tag and address.
unfoldable pub last_probe_key_bytes : ℕ → Bytes → Bytes
last_probe_key_bytes tag sa = tag ∷ sa

-- A `LogData`, its padding byte last.
unfoldable pub log_data_bytes : ℕ → LogData → Bytes
unfolding le_bytes
log_data_bytes pad d = le_bytes 2 d.device_id ++ d.ssi_signal % 256 ∷ pad ∷ []

-- `((LogKey *) p)->tag`, `->sa` and `->dt`, where `past` is what stands behind the record.
unfoldable pub tag_at : (Bytes → ℕ → ℕ) → Bytes → ℕ
unfolding byte_at
tag_at past k = byte_at past k 0

unfoldable pub sa_at : (Bytes → ℕ → ℕ) → Bytes → Bytes
unfolding byte_at
sa_at past k = map (byte_at past k) (1 ∷ 2 ∷ 3 ∷ 4 ∷ 5 ∷ 6 ∷ [])

unfoldable pub dt_at : (Bytes → ℕ → ℕ) → Bytes → ℕ
unfolding byte_at from_le
dt_at past k = from_le (map (byte_at past k) (8 ∷ 9 ∷ 10 ∷ 11 ∷ 12 ∷ 13 ∷ 14 ∷ 15 ∷ []))

-- `*((time_t *) p)`
unfoldable pub time_at : (Bytes → ℕ → ℕ) → Bytes → ℕ
unfolding byte_at from_le
time_at past v = from_le (map (byte_at past v) (0 ∷ 1 ∷ 2 ∷ 3 ∷ 4 ∷ 5 ∷ 6 ∷ 7 ∷ []))

-- `((LogData *) p)`
unfoldable pub log_data_at : (Bytes → ℕ → ℕ) → Bytes → LogData
unfolding byte_at from_le
log_data_at past v = record {
  device_id = from_le (map (byte_at past v) (0 ∷ 1 ∷ []));
  ssi_signal = byte_at past v 2;
}

-- `(uint32_t) t` of a `time_t`.
unfoldable pub to_u32 : ℤ → ℕ
to_u32 (pos n) = n % 2 ^ 32
to_u32 (negsuc n) = 2 ^ 32 - 1 - n % 2 ^ 32

-- The `sz` that each reader takes from `saSize`.
unfoldable pub clamp_sa_size : ℤ → ℕ
clamp_sa_size (negsuc n) = 0
clamp_sa_size (pos n) = if leb 6 n then 6 else n

-- `memset(key.sa, 0, 6)`, and then `sz` bytes of `sa` where it is not NULL.
unfoldable pub fill_sa : Option Bytes → ℕ → Bytes
fill_sa none sz = replicate 6 0
fill_sa (some sa) sz = take sz sa ++ replicate (6 - sz) 0
