-- ===== src/Tests/Services.antt =====
-- The agent, the log in PostgreSQL and the messages at concrete inputs.
use wacs.Prelude.{
  ℕ, ◌≡◌, ◌≢◌, true, false, pos, Bool, some, List, [], ◌∷◌, ◌++◌, All, arith, length, map,
}
use wacs.Layout.{Bytes, LogRecord}
use wacs.LogEntries.Scan.{Scanner, at_end}
use wacs.ErrorCodes.{errcode_database_statement_fail}
use wacs.Lmdb.Order.{starts_with}
use wacs.Monitor.{Host, new_params, clear}
use wacs.Monitor.Objects.{get, integer, handle_requestsperhour, handle_totalmac, handle_errorcount}
use wacs.Monitor.Agent.{init_mibs}
use wacs.Monitor.Results.{IsReadOnly, Use, packet, used, init_mibs-IsReadOnly, counters-stay}
use wacs.Pg.{Pq, Status, command_ok, tuples_ok, put_log_entries, read_log}
use wacs.Pg.Statements.{begin_stmt, end_stmt}
use wacs.Pg.Results.{
  SelectsRows, run_statements, insert_record, outcome, put_log_entries-runs, read_log-always_fails,
}
use wacs.Tests.Setup.{mac1, record1, collect}
use wacs.Tests.Setup as Setup

abbrev host : Host
host = record {
  if_ip_address = 49 ∷ [];
  file_size = λ b. 4096;
  peak_rss = 2048;
  current_rss = 1024;
}

init_mibs-IsReadOnly_example : All (λ r. IsReadOnly host (new_params 7) r) (init_mibs [])
init_mibs-IsReadOnly_example = init_mibs-IsReadOnly host (new_params 7)

abbrev uses : List Use
uses = packet (some Setup.packet) ∷ []

counters-stay_example :
    ((handle_requestsperhour host get (used uses (clear 9 (new_params 7)))).1
      ≡ some (integer (pos 0)))
    × ((handle_totalmac host get (used uses (clear 9 (new_params 7)))).1 ≡ some (integer (pos 0)))
    × ((handle_errorcount host get (used uses (clear 9 (new_params 7)))).1 ≡ some (integer (pos 0)))
counters-stay_example = counters-stay host 9 uses (new_params 7)

-- A server that keeps the statements; a SELECT answers one row.
unfoldable status_of : Bool → Status
status_of true = tuples_ok
status_of false = command_ok

abbrev select : Bytes
select = b'S' ∷ b'E' ∷ b'L' ∷ b'E' ∷ b'C' ∷ b'T' ∷ []

unfoldable server : Pq
unfolding status_of starts_with
server = record {
  State = List Bytes;
  connectdb = λ c s. (1, s);
  set_db_login = λ h p o d u w s. (1, s);
  connected = λ c s. true;
  exec = λ c q s. (status_of (starts_with select q), (mac1 ∷ []) ∷ [], s ++ q ∷ []);
  finish = λ c s. s;
}

status-of_select : (b : Bool) → b ≡ true → status_of b ≢ command_ok
unfolding status_of
status-of_select true h e = absurd (ground (arith, e))
status-of_select false h e = cc h

server-SelectsRows : SelectsRows server
unfolding server
server-SelectsRows = record { not_command = λ c q s h. status-of_select (starts_with select q) h }

unfoldable idle : server.State
unfolding server
idle = []

abbrev records : List (ℕ × LogRecord)
records = (100, record1) ∷ []

put_log_entries-runs_example :
    put_log_entries server 1 records idle
    ≡ outcome server 1 (pos (length records)) (
        run_statements server 1
          (begin_stmt ∷ (map (insert_record server 1) records ++ end_stmt ∷ []))
          idle)
put_log_entries-runs_example = put_log_entries-runs server 1 records idle

abbrev scanner : Scanner
scanner b = at_end

read_log-always_fails_example :
    (read_log server scanner
      (λ b. 5)
      1
      mac1
      (pos 6)
      (pos 0)
      (pos 0)
      (some collect)
      (some [])
      idle).0
    ≡ (errcode_database_statement_fail, some [])
read_log-always_fails_example =
    read_log-always_fails server server-SelectsRows scanner (λ b. 5) 1 mac1 (pos 6) (pos 0) (pos 0)
      collect [] idle
