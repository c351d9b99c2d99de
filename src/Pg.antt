-- ===== src/Pg.antt =====
-- pglog.cpp: the log in PostgreSQL. The client library is a parameter: its state, and one operation for
-- each function that the code calls. A result is its status and the rows, as text.
pub mod Statements
pub mod Results
pub mod Writer
pub mod Live
pub mod Closing
use wacs.Prelude.{
  ℕ, ◌+◌, ◌%◌, ◌^◌, ℤ, pos, Bool, true, false, not, Option, none, some, List, [], ◌∷◌, length,
  get_or, ltb, if◌then◌else◌,
}
use wacs.Layout.{Bytes, LogEntry, LogRecord, LogKey, LogData, sizeof_log_entry}
use wacs.LogEntries.{ntoh_log_entry}
use wacs.LogEntries.Scan.{Scanner, strtomacaddress}
use wacs.Text.{from_i8}
use wacs.ErrorCodes.{
  errcode_no_memory, errcode_wrong_param, errcode_database_statement_fail, errcode_not_implemented,
}
use wacs.Db.Query.{OnLog, time_range}
use wacs.Pg.Statements.{begin_stmt, end_stmt, insert_stmt, select_stmt, from_i16}

-- PQresultStatus: PGRES_COMMAND_OK, PGRES_TUPLES_OK, or a failure.
pub data Status : Type 0 where
  command_ok tuples_ok failed : Status

pub record Pq : Type 1 where
  pub State : Type 0
  pub connectdb : Bytes → State → ℕ × State
  -- The host, the port, the options, the database, the user and the password.
  pub set_db_login : Bytes → Bytes → Bytes → Bytes → Bytes → Bytes → State → ℕ × State
  -- PQstatus is CONNECTION_OK.
  pub connected : ℕ → State → Bool
  pub exec : ℕ → Bytes → State → Status × List (List Bytes) × State
  pub finish : ℕ → State → State

-- `class dbenv` of pglog.h; `dbsocket`, `dbcharset` and `dbclientflags` are not used.
pub record PgEnv : Type 0 where
  pub conn : ℕ
  pub dbconn : Bytes
  pub dboptionsfile : Bytes
  pub dbname : Bytes
  pub dbuser : Bytes
  pub dbpassword : Bytes
  pub dbhost : Bytes
  pub dbport : Bytes

abbrev pub is_command_ok : Status → Bool
is_command_ok command_ok = true
is_command_ok tuples_ok = false
is_command_ok failed = false

module _ (P : Pq) where
  -- openDb: with a connection string, or with its parts.
  unfoldable pub open_db : PgEnv → P.State → Bool × PgEnv × P.State
  open_db env s =
      let (conn, s1) =
        if ltb 0 (length env.dbconn)
        then P.connectdb env.dbconn s
        else P.set_db_login env.dbhost env.dbport env.dboptionsfile env.dbname env.dbuser
            env.dbpassword s in
      (P.connected conn s1, record env { conn = conn }, s1)

  -- closeDb
  unfoldable pub close_db : PgEnv → P.State → Bool × P.State
  close_db env s = (true, P.finish env.conn s)

  -- PQexec and CHECK_STMT: a status other than PGRES_COMMAND_OK closes the connection and gives the
  -- answer, and else the rest goes on with the rows.
  unfoldable pub check_stmt :
      {A : Type 0}
      → ℕ
      → Bytes
      → (ℤ → A)
      → (List (List Bytes) → P.State → A × P.State)
      → P.State
      → A × P.State
  check_stmt conn stmt answer rest s =
      let (st, rows, s1) = P.exec conn stmt s in
      if not (is_command_ok st)
      then (answer errcode_database_statement_fail, P.finish conn s1)
      else rest rows s1

  -- putLog for a packet of the given size at the given time.
  unfoldable pub put_log : ℕ → ℕ → LogEntry → ℕ → P.State → ℤ × P.State
  unfolding ntoh_log_entry insert_stmt
  put_log conn now packet size s =
      let e = ntoh_log_entry packet in
      if ltb size sizeof_log_entry
      then (errcode_no_memory, s)
      else check_stmt conn begin_stmt (λ r. r)
          (λ _.
            check_stmt conn (insert_stmt e.sa now e.device_id (from_i16 e.ssi_signal)) (λ r. r)
              (λ _. check_stmt conn end_stmt (λ r. r) (λ _ s'. (pos 0, s'))))
          s

  -- The loop of putLogEntries over the records of its callback, each at the time when it is stored,
  -- and the commit; `c` counts them. The time of the record is not used.
  unfoldable pub put_records : ℕ → List (ℕ × LogRecord) → ℕ → P.State → ℤ × P.State
  unfolding insert_stmt from_i8
  put_records conn [] c = check_stmt conn end_stmt (λ r. r) (λ _ s'. (pos c, s'))
  put_records conn ((now, n) ∷ ns) c =
      let rest = put_records conn ns (c + 1) in
      check_stmt conn (insert_stmt n.sa now n.device_id (from_i8 n.ssi_signal)) (λ r. r) (λ _. rest)

  -- putLogEntries
  unfoldable pub put_log_entries : ℕ → List (ℕ × LogRecord) → P.State → ℤ × P.State
  put_log_entries conn ns = check_stmt conn begin_stmt (λ r. r) (λ _. put_records conn ns 0)

  module _ {E : Type 0} (scan : Scanner) (strtol : Bytes → ℕ) where
    -- The loop of readLog over the rows, until the callback answers true.
    unfoldable pub read_rows : OnLog E → List (List Bytes) → E → E
    unfolding strtomacaddress
    read_rows f [] e = e
    read_rows f (r ∷ rs) e =
        let key : LogKey = record {
          sa = (strtomacaddress scan (get_or r 0 [])).1;
          dt = strtol (get_or r 1 []);
        } in
        let d : LogData = record {
          device_id = strtol (get_or r 2 []) % 2 ^ 16;
          ssi_signal = strtol (get_or r 3 []) % 2 ^ 8;
        } in
        let answer = f e key (some d) in
        let rest = read_rows f rs answer.1 in if answer.0 then answer.1 else rest

    -- readLog: the code and the callback's environment. The address is not NULL.
    unfoldable pub read_log :
        ℕ → Bytes → ℤ → ℤ → ℤ → Option (OnLog E) → Option E → P.State → (ℤ × Option E) × P.State
    unfolding time_range select_stmt
    read_log conn sa sa_size start finish f none s = ((errcode_wrong_param, none), s)
    read_log conn sa sa_size start finish none (some e) s = ((errcode_wrong_param, some e), s)
    read_log conn sa sa_size start finish (some f) (some e) s =
        let range = time_range start finish in
        check_stmt conn begin_stmt (λ r. (r, some e))
          (λ _.
            check_stmt conn (select_stmt sa sa_size range.0 range.1) (λ r. (r, some e))
              (λ rows.
                check_stmt conn end_stmt (λ r. (r, some (read_rows f rows e)))
                  (λ _ s'. ((pos 0, some (read_rows f rows e)), s'))))
          s

-- rmLog, readLastProbe and the routines of the notifications.
unfoldable pub rm_log : ℤ
rm_log = errcode_not_implemented

unfoldable pub read_last_probe : ℤ
read_last_probe = errcode_not_implemented

unfoldable pub get_notification : ℤ
get_notification = errcode_not_implemented

unfoldable pub put_notification : ℤ
put_notification = errcode_not_implemented

unfoldable pub ls_notification : ℤ
ls_notification = errcode_not_implemented

unfoldable pub rm_notification : ℤ
rm_notification = errcode_not_implemented
