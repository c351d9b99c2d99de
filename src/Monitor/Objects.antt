-- ===== src/Monitor/Objects.antt =====
-- The twelve scalar objects of snmpagent-wacs.cpp: their handlers and their registrations.
use wacs.Prelude.{ℕ, ◌/◌, ◌%◌, ◌^◌, ℤ, pos, Option, none, some, List, [], ◌∷◌}
use wacs.Layout.{Bytes}
use wacs.Monitor.{MonitoringParams, Host, get_database_file_size, get_ip}

-- `reqinfo->mode`: MODE_GET, or another one.
pub data Mode : Type 0 where
  get other : Mode

-- The value that a handler sets: ASN_OCTET_STR, or ASN_INTEGER of four bytes.
pub data Value : Type 0 where
  octets : Bytes → Value
  integer : ℤ → Value

-- SNMP_ERR_NOERROR and SNMP_ERR_GENERR
abbrev pub snmp_err_noerror : ℕ
snmp_err_noerror = 0

abbrev pub snmp_err_generr : ℕ
snmp_err_generr = 5

-- A handler: the code, the value that it sets, and the parameters behind it.
abbrev pub Handler : Type 0
Handler = Host → Mode → MonitoringParams → ℕ × Option Value × MonitoringParams

unfoldable pub handle_databasefilename : Handler
handle_databasefilename h get c = (snmp_err_noerror, some (octets c.databasefilename), c)
handle_databasefilename h other c = (snmp_err_generr, none, c)

unfoldable pub handle_ip : Handler
unfolding get_ip
handle_ip h get c = (snmp_err_noerror, some (octets (get_ip h c).ip), get_ip h c)
handle_ip h other c = (snmp_err_generr, none, c)

unfoldable pub handle_port : Handler
handle_port h get c = (snmp_err_noerror, some (integer (pos c.port)), c)
handle_port h other c = (snmp_err_generr, none, c)

unfoldable pub handle_starttime : Handler
handle_starttime h get c = (snmp_err_noerror, some (integer (pos c.starttime)), c)
handle_starttime h other c = (snmp_err_generr, none, c)

unfoldable pub handle_requestsperhour : Handler
handle_requestsperhour h get c = (snmp_err_noerror, some (integer c.requestsperhour), c)
handle_requestsperhour h other c = (snmp_err_generr, none, c)

unfoldable pub handle_lastmac : Handler
handle_lastmac h get c = (snmp_err_noerror, some (octets c.lastmac), c)
handle_lastmac h other c = (snmp_err_generr, none, c)

unfoldable pub handle_lastssisignal : Handler
handle_lastssisignal h get c = (snmp_err_noerror, some (integer (pos c.lastssisignal)), c)
handle_lastssisignal h other c = (snmp_err_generr, none, c)

unfoldable pub handle_totalmac : Handler
handle_totalmac h get c = (snmp_err_noerror, some (integer c.totalmac), c)
handle_totalmac h other c = (snmp_err_generr, none, c)

unfoldable pub handle_databasefilesize : Handler
unfolding get_database_file_size
handle_databasefilesize h get c =
    (snmp_err_noerror, some (integer (pos (get_database_file_size h c / 1024 % 2 ^ 32))), c)
handle_databasefilesize h other c = (snmp_err_generr, none, c)

unfoldable pub handle_memorypeak : Handler
handle_memorypeak h get c = (snmp_err_noerror, some (integer (pos (h.peak_rss / 1024 % 2 ^ 32))), c)
handle_memorypeak h other c = (snmp_err_generr, none, c)

unfoldable pub handle_memorycurrent : Handler
handle_memorycurrent h get c =
    (snmp_err_noerror, some (integer (pos (h.current_rss / 1024 % 2 ^ 32))), c)
handle_memorycurrent h other c = (snmp_err_generr, none, c)

unfoldable pub handle_errorcount : Handler
handle_errorcount h get c = (snmp_err_noerror, some (integer c.errorcount), c)
handle_errorcount h other c = (snmp_err_generr, none, c)

-- The arguments of netsnmp_create_handler_registration; the access is HANDLER_CAN_RONLY for all.
pub data Access : Type 0 where
  can_ronly can_rwrite : Access

pub record Registration : Type 0 where
  pub name : Bytes
  pub handler : Handler
  pub oid : List ℕ
  pub access : Access

-- { 1, 3, 6, 1, 4, 1, 46821, 2, 1 }
abbrev pub wacs_oid : List ℕ
wacs_oid = 1 ∷ 3 ∷ 6 ∷ 1 ∷ 4 ∷ 1 ∷ 46821 ∷ 2 ∷ 1 ∷ []

-- What is registered, in the order of the calls.
abbrev pub Agent : Type 0
Agent = List Registration
