-- ===== src/LogEntries.antt =====
-- hostapd-log-entry.cpp: the packet's byte order, and MAC addresses as text.
pub mod Scan
pub mod RoundTrip
use wacs.Prelude.{
  ℕ, zero, suc, ◌+◌, ◌-◌, ◌/◌, ◌%◌, Bool, List, [], ◌∷◌, ◌++◌, ltb, leb, ◌==◌, if◌then◌else◌, take,
  length,
}
use wacs.Layout.{Bytes, LogEntry, swap16}

-- ntohLogEntry and htonLogEntry are the same swap of both 16-bit fields.
unfoldable pub ntoh_log_entry : LogEntry → LogEntry
unfolding swap16
ntoh_log_entry e = record e { device_id = swap16 e.device_id; ssi_signal = swap16 e.ssi_signal }

unfoldable pub hton_log_entry : LogEntry → LogEntry
unfolding swap16
hton_log_entry e = record e { device_id = swap16 e.device_id; ssi_signal = swap16 e.ssi_signal }

-- `std::hex` and `std::setw(2)` with fill '0': at least two digits.
unfoldable pub hex_digit : ℕ → ℕ
hex_digit d = if ltb d 10 then b'0' + d else b'a' + (d - 10)

unfoldable pub hex2 : ℕ → Bytes
unfolding hex_digit
hex2 b = hex_digit (b / 16) ∷ hex_digit (b % 16) ∷ []
