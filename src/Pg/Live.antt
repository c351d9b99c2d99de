-- ===== src/Pg/Live.antt =====
-- The connection to PostgreSQL stays open as long as the server accepts the statements.
use wacs.Prelude.{
  ℕ, ℤ, ◌≡◌, true, false, ◌||◌, Bool, some, List, inl, inr, arith, Bool-cases, pos_part, length,
  ltb, if◌then◌else◌,
}
use wacs.Layout.{Bytes, LogEntry, sizeof_log_entry}
use wacs.LogEntries.{ntoh_log_entry}
use wacs.Mq.{Nn}
use wacs.Mq.Sender.{log_entry_at}
use wacs.Writer.Loop.{any, loop_until-ends}
use wacs.Pg.{Pq, PgEnv, command_ok, open_db, check_stmt, put_log}
use wacs.Pg.Statements.{begin_stmt, end_stmt, insert_stmt, from_i16}
use wacs.Pg.Writer.{PgWriter, PgRound, turn, write_loop}

-- What the documentation of libpq says of a server that is up and accepts what putLog asks for:
-- `Live conn s` says that the connection is open. A connection whose status is CONNECTION_OK is open,
-- and PQexec leaves it open.
pub record Accepts (P : Pq) (Live : ℕ → P.State → Type 0) : Type 0 where
  pub connects :
      (info : Bytes) (s : P.State)
      → P.connected (P.connectdb info s).0 (P.connectdb info s).1 ≡ true
      → Live (P.connectdb info s).0 (P.connectdb info s).1
  pub logs_in :
      (h p o d u w : Bytes) (s : P.State)
      → P.connected (P.set_db_login h p o d u w s).0 (P.set_db_login h p o d u w s).1 ≡ true
      → Live (P.set_db_login h p o d u w s).0 (P.set_db_login h p o d u w s).1
  pub stays : (conn : ℕ) (q : Bytes) (s : P.State) → Live conn s → Live conn (P.exec conn q s).2
  pub begins : (conn : ℕ) (s : P.State) → Live conn s → (P.exec conn begin_stmt s).0 ≡ command_ok
  pub inserts :
      (conn now device : ℕ) (sa : Bytes) (ssi : ℤ) (s : P.State)
      → Live conn s
      → (P.exec conn (insert_stmt sa now device ssi) s).0 ≡ command_ok
  pub ends : (conn : ℕ) (s : P.State) → Live conn s → (P.exec conn end_stmt s).0 ≡ command_ok

either : {A : Type 0} (Q : A → Type 0) (b : Bool) {x y : A} → Q x → Q y → Q (if b then x else y)
either Q true p q = p
either Q false p q = q

module _ {P : Pq} {Live : ℕ → P.State → Type 0} (A : Accepts P Live) where
  check_stmt-Live :
      (conn : ℕ) (q : Bytes) (rest : List (List Bytes) → P.State → ℤ × P.State) (s : P.State)
      → (P.exec conn q s).0 ≡ command_ok
      → ((rows : List (List Bytes)) (s' : P.State) → Live conn s' → Live conn (rest rows s').1)
      → Live conn s
      → Live conn (check_stmt P conn q (λ r. r) rest s).1
  unfolding check_stmt
  check_stmt-Live conn q rest s ok next k =
      rw ok (next (P.exec conn q s).1 (P.exec conn q s).2 (A.stays conn q s k))

  -- putLog leaves an open connection open.
  put_log-Live :
      (conn now size : ℕ) (packet : LogEntry) (s : P.State)
      → Live conn s
      → Live conn (put_log P conn now packet size s).1
  unfolding put_log
  put_log-Live conn now size packet s k = elim (Bool-cases (ltb size sizeof_log_entry)) [
    | inl short ↦ rw short k
    | inr long ↦ rw long (
        check_stmt-Live conn begin_stmt _ s (A.begins conn s k)
          (λ _ s1 k1.
            check_stmt-Live conn _ _ s1
              (A.inserts conn now e.device_id e.sa (from_i16 e.ssi_signal) s1 k1)
              (λ _ s2 k2. check_stmt-Live conn end_stmt _ s2 (A.ends conn s2 k2) (λ _ s3 k3. k3) k2)
              k1)
          k)
  ]
    where
      e : LogEntry
      e = ntoh_log_entry packet

  pub open_db-Live :
      (env : PgEnv) (s : P.State)
      → (open_db P env s).0 ≡ true
      → Live (open_db P env s).1.conn (open_db P env s).2
  unfolding open_db
  open_db-Live env s =
      either {A = ℕ × P.State} (λ v. P.connected v.0 v.1 ≡ true → Live v.0 v.1)
        (ltb 0 (length env.dbconn)) (A.connects env.dbconn s)
        (A.logs_in env.dbhost env.dbport env.dboptionsfile env.dbname env.dbuser env.dbpassword s)

  module _ {N : Nn} where
    turn-stops :
        (accept_socket : ℤ) (t : PgRound) (c : PgWriter P N)
        → (c.stop_request || t.signalled) ≡ true
        → (turn accept_socket t c).stop_request ≡ true
    unfolding turn
    turn-stops accept_socket t c h = ground (arith, h)

    turn-Live :
        (accept_socket : ℤ) (t : PgRound) (c : PgWriter P N)
        → Live c.env.conn c.server
        → Live (turn accept_socket t c).env.conn (turn accept_socket t c).server
    unfolding turn
    turn-Live accept_socket t c k =
        let got = N.recv accept_socket (some sizeof_log_entry) c.nn in
        ground (
          arith,
          k,
          put_log-Live c.env.conn t.now (pos_part got.0) (log_entry_at t.past got.1) c.server k,
        )

    pub write_loop-Live :
        (accept_socket : ℤ) (rounds : List PgRound) (c : PgWriter P N)
        → any (λ t. t.signalled) rounds ≡ true
        → Live c.env.conn c.server
        → (c' : PgWriter P N) × (write_loop accept_socket rounds c ≡ some c')
          × Live c'.env.conn c'.server
    unfolding write_loop
    write_loop-Live accept_socket =
        loop_until-ends (λ c. c.stop_request) (turn accept_socket) (λ t. t.signalled)
          (λ c. Live c.env.conn c.server) (turn-stops accept_socket) (turn-Live accept_socket)
