-- ===== src/Monitor.antt =====
-- snmp-params.cpp and snmpagent-wacs.cpp: the parameters that the writer reports, and the scalar
-- objects of the agent that read them. The net-snmp library is not modelled: a registration is the
-- arguments of the call that makes it, and a handler gives what it hands to the library.
pub mod Objects
pub mod Agent
pub mod Results
use wacs.Prelude.{ℕ, ◌+◌, ◌*◌, ◌/◌, ◌%◌, ◌^◌, ℤ, pos, Option, none, some, List, [], ◌∷◌}
use wacs.Layout.{Bytes, LogEntry}
use wacs.LogEntries.Scan.{mactostr}

-- `MonitoringParams`; `port` and `starttime` are 32-bit patterns, and `lastssisignal` is the pattern
-- of the 16-bit signal that it was set from.
pub record MonitoringParams : Type 0 where
  pub databasefilename : Bytes
  pub ip : Bytes
  pub port : ℕ
  pub starttime : ℕ
  pub requestsperhour : ℤ
  pub lastmac : Bytes
  pub lastssisignal : ℕ
  pub totalmac : ℤ
  pub errorcount : ℤ

-- "mdbx.dat"
abbrev pub def_file_name : Bytes
def_file_name = b'm' ∷ b'd' ∷ b'b' ∷ b'x' ∷ b'.' ∷ b'd' ∷ b'a' ∷ b't' ∷ []

-- MonitoringParams::MonitoringParams, at a time.
unfoldable pub new_params : ℕ → MonitoringParams
new_params now = record {
  databasefilename = def_file_name;
  ip = [];
  port = 0;
  starttime = now % 2 ^ 32;
  requestsperhour = pos 0;
  lastmac = [];
  lastssisignal = 0;
  totalmac = pos 0;
  errorcount = pos 0;
}

-- MonitoringParams::clear
unfoldable pub clear : ℕ → MonitoringParams → MonitoringParams
clear now c = record c {
  databasefilename = def_file_name;
  ip = [];
  port = 0;
  starttime = now % 2 ^ 32;
  requestsperhour = pos 0;
  lastmac = [];
  lastssisignal = 0;
  totalmac = pos 0;
  errorcount = pos 0;
}

-- MonitoringParams::put; a NULL packet is not looked at.
unfoldable pub put_packet : Option LogEntry → MonitoringParams → MonitoringParams
unfolding mactostr
put_packet none c = c
put_packet (some e) c = record c { lastmac = mactostr e.sa; lastssisignal = e.ssi_signal }

-- What the process asks of the host: the address of its interface, the size of a file, and its
-- memory, in bytes.
pub record Host : Type 0 where
  pub if_ip_address : Bytes
  pub file_size : Bytes → ℕ
  pub peak_rss : ℕ
  pub current_rss : ℕ

-- MonitoringParams::getDatabaseFileSize and getIP
unfoldable pub get_database_file_size : Host → MonitoringParams → ℕ
get_database_file_size h c = h.file_size c.databasefilename

unfoldable pub get_ip : Host → MonitoringParams → MonitoringParams
get_ip h c = record c { ip = h.if_ip_address }
