-- ===== src/Pg/Results.antt =====
-- What the log in PostgreSQL stores, and what it reads.
use mathlib.Core.Path.{ap₂}
use wacs.Prelude.{
  ℕ, suc, ◌+◌, ◌≡◌, ◌≢◌, refl, ap, ◌∙◌, sym, true, false, not, Bool, ℤ, pos, some, List, [], ◌∷◌,
  ◌++◌, map, length, arith, inl, inr, Bool-cases, if◌then◌else◌, ltb,
}
use wacs.Layout.{Bytes, LogEntry, LogRecord, sizeof_log_entry}
use wacs.LogEntries.{ntoh_log_entry}
use wacs.LogEntries.Scan.{Scanner}
use wacs.Text.{from_i8}
use wacs.ErrorCodes.{errcode_no_memory, errcode_database_statement_fail}
use wacs.Lmdb.Order.{starts_with}
use wacs.Db.Query.{OnLog, time_range}
use wacs.Pg.Statements.{begin_stmt, end_stmt, insert_stmt, select_stmt, from_i16}
use wacs.Pg.{
  Pq, Status, command_ok, is_command_ok, check_stmt, put_log, put_records, put_log_entries,
  read_log,
}

module _ (P : Pq) (conn : ℕ) where
  -- Statements in turn, up to the first that has another status than PGRES_COMMAND_OK, which closes
  -- the connection: whether all have run.
  unfoldable pub run_statements : List Bytes → P.State → Bool × P.State
  run_statements [] s = (true, s)
  run_statements (q ∷ qs) s =
      let (st, rows, s1) = P.exec conn q s in
      let rest = run_statements qs s1 in
      if not (is_command_ok st) then (false, P.finish conn s1) else rest

  unfoldable pub insert_record : ℕ × LogRecord → Bytes
  unfolding insert_stmt from_i8
  insert_record (now, n) = insert_stmt n.sa now n.device_id (from_i8 n.ssi_signal)

  -- The answer for an outcome of the statements.
  abbrev pub outcome : ℤ → Bool × P.State → ℤ × P.State
  outcome code (ok, s) = (if ok then code else errcode_database_statement_fail, s)

  -- One statement more.
  check_runs :
      (q : Bytes) (qs : List Bytes) (code : ℤ) (rest : List (List Bytes) → P.State → ℤ × P.State)
      → ((rows : List (List Bytes)) (s : P.State)
          → rest rows s ≡ outcome code (run_statements qs s))
      → (s : P.State)
      → check_stmt P conn q (λ r. r) rest s ≡ outcome code (run_statements (q ∷ qs) s)
  unfolding check_stmt run_statements
  check_runs q qs code rest same s = elim (Bool-cases (is_command_ok (P.exec conn q s).0)) [
    | inl ok ↦ rw ok (same (P.exec conn q s).1 (P.exec conn q s).2)
    | inr bad ↦ rw bad refl
  ]

  none_left :
      (code : ℤ) (s : P.State)
      → ◌≡◌ {A = ℤ × P.State} (code, s) (outcome code (run_statements [] s))
  unfolding run_statements
  none_left code s = refl

  -- putLog runs BEGIN, one INSERT and END, and answers 0, or at the first that fails it closes the
  -- connection and answers the code of a failed statement; a packet that is too short runs none.
  pub put_log-runs :
      (now size : ℕ) (packet : LogEntry) (s : P.State)
      → put_log P conn now packet size s ≡ (
          if ltb size sizeof_log_entry
          then (errcode_no_memory, s)
          else outcome (pos 0) (
              run_statements
                (begin_stmt
                  ∷ insert_stmt packet.sa now
                      (ntoh_log_entry packet).device_id
                      (from_i16 (ntoh_log_entry packet).ssi_signal)
                  ∷ end_stmt
                  ∷ [])
                s))
  unfolding put_log ntoh_log_entry
  put_log-runs now size packet s =
      let insert =
        insert_stmt packet.sa now (ntoh_log_entry packet).device_id
          (from_i16 (ntoh_log_entry packet).ssi_signal) in
      ap (λ x. if ltb size sizeof_log_entry then (errcode_no_memory, s) else x)
        (check_runs begin_stmt (insert ∷ end_stmt ∷ []) (pos 0) _
          (λ _.
            check_runs insert (end_stmt ∷ []) (pos 0) _
              (λ _. check_runs end_stmt [] (pos 0) _ (λ _ s'. none_left (pos 0) s')))
          s)

  put_records-runs :
      (ns : List (ℕ × LogRecord)) (c : ℕ) (s : P.State)
      → put_records P conn ns c s
        ≡ outcome (pos (c + length ns)) (run_statements (map insert_record ns ++ end_stmt ∷ []) s)
  unfolding put_records insert_record
  put_records-runs [] c s =
      check_runs end_stmt [] (pos c) _ (λ _ s'. none_left (pos c) s') s
      ∙ ap (λ k. outcome (pos k) (run_statements (end_stmt ∷ []) s)) (omega arith)
  put_records-runs ((now, n) ∷ ns) c s =
      check_runs (insert_record (now, n)) (map insert_record ns ++ end_stmt ∷ [])
        (pos (c + 1 + length ns)) _ (λ _. put_records-runs ns (c + 1)) s
      ∙ ap
          (λ k.
            outcome (pos k)
              (run_statements (insert_record (now, n) ∷ (map insert_record ns ++ end_stmt ∷ [])) s))
          (omega arith)

  -- putLogEntries runs BEGIN, one INSERT for each record, and END, and answers the number of records, or
  -- at the first statement that fails it closes the connection and answers the code of a failed
  -- statement.
  pub put_log_entries-runs :
      (ns : List (ℕ × LogRecord)) (s : P.State)
      → put_log_entries P conn ns s
        ≡ outcome
            (pos (length ns))
            (run_statements (begin_stmt ∷ (map insert_record ns ++ end_stmt ∷ [])) s)
  unfolding put_log_entries
  put_log_entries-runs ns s =
      check_runs begin_stmt (map insert_record ns ++ end_stmt ∷ []) (pos (0 + length ns)) _
        (λ _. put_records-runs ns 0) s
      ∙ ap
          (λ k.
            outcome (pos k)
              (run_statements (begin_stmt ∷ (map insert_record ns ++ end_stmt ∷ [])) s))
          (omega arith)

-- The record with another time.
abbrev at_time : ℕ → ℕ × LogRecord → ℕ × LogRecord
at_time dt (now, n) = (now, record n { dt = dt })

same_insert :
    (P : Pq) (conn dt : ℕ) (n : ℕ × LogRecord)
    → insert_record P conn (at_time dt n) ≡ insert_record P conn n
unfolding insert_record
same_insert P conn dt (now, n) = refl

-- putLogEntries stores the time of the call, and not that of the record: with any other times in the
-- records it does the same.
put_log_entries-forgets_time :
    (P : Pq) (conn dt : ℕ) (ns : List (ℕ × LogRecord)) (s : P.State)
    → put_log_entries P conn (map (at_time dt) ns) s ≡ put_log_entries P conn ns s
put_log_entries-forgets_time P conn dt ns s =
    put_log_entries-runs P conn (map (at_time dt) ns) s
    ∙ ap₂
        (λ k qs.
          outcome P conn (pos k) (run_statements P conn (begin_stmt ∷ (qs ++ end_stmt ∷ [])) s))
        (same_length ns) (same_inserts ns)
    ∙ sym (put_log_entries-runs P conn ns s)
  where
    same_length : (ns : List (ℕ × LogRecord)) → length (map (at_time dt) ns) ≡ length ns
    same_length [] = refl
    same_length (n ∷ ns) = ap suc (same_length ns)

    same_inserts :
        (ns : List (ℕ × LogRecord))
        → map (insert_record P conn) (map (at_time dt) ns) ≡ map (insert_record P conn) ns
    same_inserts [] = refl
    same_inserts (n ∷ ns) = ap₂ (λ q qs. q ∷ qs) (same_insert P conn dt n) (same_inserts ns)

-- The documented status of a SELECT: it answers rows, with PGRES_TUPLES_OK, or fails.
pub record SelectsRows (P : Pq) : Type 0 where
  pub not_command :
      (conn : ℕ) (q : Bytes) (s : P.State)
      → starts_with (b'S' ∷ b'E' ∷ b'L' ∷ b'E' ∷ b'C' ∷ b'T' ∷ []) q ≡ true
      → (P.exec conn q s).0 ≢ command_ok

is_select :
    (sa : Bytes) (sa_size start finish : ℤ)
    → starts_with
        (b'S' ∷ b'E' ∷ b'L' ∷ b'E' ∷ b'C' ∷ b'T' ∷ [])
        (select_stmt sa sa_size start finish)
      ≡ true
unfolding starts_with select_stmt
is_select sa sa_size start finish = refl

refused : (st : Status) → st ≢ command_ok → is_command_ok st ≡ false
refused st h = ground (arith, h)

-- readLog never delivers anything: with a callback and its environment it answers the code of a failed
-- statement and leaves the environment as it was, since its test of the status of the SELECT refuses
-- the status of a SELECT that answers rows.
pub read_log-always_fails :
    (P : Pq) (T : SelectsRows P) {E : Type 0} (scan : Scanner) (strtol : Bytes → ℕ) (conn : ℕ)
    (sa : Bytes) (sa_size start finish : ℤ) (f : OnLog E) (e : E) (s : P.State)
    → (read_log P scan strtol conn sa sa_size start finish (some f) (some e) s).0
      ≡ (errcode_database_statement_fail, some e)
unfolding read_log check_stmt
read_log-always_fails P T scan strtol conn sa sa_size start finish f e s =
    let s1 = (P.exec conn begin_stmt s).2 in
    let q = select_stmt sa sa_size (time_range start finish).0 (time_range start finish).1 in
    let no_rows = refused (P.exec conn q s1).0 (
      T.not_command conn q s1
        (is_select sa sa_size (time_range start finish).0 (time_range start finish).1)) in
    elim (Bool-cases (is_command_ok (P.exec conn begin_stmt s).0)) [
      | inl ok ↦ rw ok (rw no_rows refl)
      | inr bad ↦ rw bad refl
    ]
