-- ===== src/Pg/Closing.antt =====
-- When the writer opens and closes its connection to PostgreSQL.
use wacs.Prelude.{
  ◌⊎◌, ℕ, ℤ, pos, ◌≡◌, refl, true, false, not, Bool, some, List, inl, inr, arith, Bool-cases, eq_ℤ,
  if◌then◌else◌,
}
use wacs.Layout.{le_bytes, sizeof_log_entry}
use wacs.ErrorCodes.{errcode_nn_bind, errcode_nn_shutdown, errcode_database_no_connection}
use wacs.Mq.{Nn, negative, af_sp, nn_bus, nn_sol_socket, nn_rcvtimeo}
use wacs.Writer.Loop.{any}
use wacs.Pg.{Pq, PgEnv, is_command_ok, open_db, close_db, check_stmt, put_log}
use wacs.Pg.Statements.{begin_stmt}
use wacs.Pg.Live.{Accepts, open_db-Live, write_loop-Live}
use wacs.Pg.Writer.{PgWriter, PgRound, snmp_initialize, dbenv_of, turn, finish, run}

-- How run ends: where the socket does not bind, the server is not called; where the database does not
-- open, what openDb answers stays as it is; and else the last call closes a connection that is open.
abbrev pub IsEnd : {P : Pq} {N : Nn} → (ℕ → P.State → Type 0) → PgWriter P N → ℤ → P.State → Type 0
IsEnd {P = P} Live config r s =
    ((r ≡ errcode_nn_bind) × (s ≡ config.server))
    ⊎ (((r ≡ errcode_database_no_connection) × (s ≡ (open_db P (dbenv_of config) config.server).2))
        ⊎ (((r ≡ pos 0) ⊎ (r ≡ errcode_nn_shutdown))
            × (conn : ℕ) × (s1 : P.State) × Live conn s1
            × (s ≡ P.finish conn s1)))

finish_code :
    (r : ℤ)
    → ((if not (eq_ℤ r (pos 0)) then errcode_nn_shutdown else r) ≡ pos 0)
      ⊎ ((if not (eq_ℤ r (pos 0)) then errcode_nn_shutdown else r) ≡ errcode_nn_shutdown)
finish_code r = ground arith

module _ {P : Pq} {N : Nn} {Live : ℕ → P.State → Type 0} (A : Accepts P Live) where
  finish-IsEnd :
      (config : PgWriter P N) (h e : ℤ) (c : PgWriter P N)
      → Live c.env.conn c.server
      → IsEnd Live config (finish h e c).0 (finish h e c).1.server
  unfolding finish close_db
  finish-IsEnd config h e c k =
      inr (inr (finish_code (N.shutdown h e c.nn).0, c.env.conn, c.server, k, refl))

  -- Where a signal calls stop or reload in some round, and the server accepts what putLog asks for, run
  -- ends: with the code of a failed bind, and has not called the server; with the code of a database
  -- that does not open, and has only tried to open it; or with 0 or the code of a failed shutdown, and
  -- its last call of the server closes a connection that is open.
  pub run-closes :
      (now : ℕ) (rounds : List PgRound) (config : PgWriter P N)
      → any (λ t. t.signalled) rounds ≡ true
      → (r : ℤ) × (c : PgWriter P N) × (run now rounds config ≡ some (r, c))
        × IsEnd Live config r c.server
  unfolding run snmp_initialize dbenv_of
  run-closes now rounds config h = elim (Bool-cases (negative eid.0)) [
    | inl p ↦ (errcode_nn_bind, record c { nn = eid.1 }, ground (arith, p), inl (refl, refl))
    | inr p ↦ elim (Bool-cases (negative o.0)) [
      | inl q ↦ (errcode_nn_bind, record c { nn = o.1 }, ground (arith, p, q), inl (refl, refl))
      | inr q ↦ elim (Bool-cases opened.0) [
        | inr r ↦
            (errcode_database_no_connection, c2, ground (arith, p, q, r), inr (inl (refl, refl)))
        | inl r ↦
            let (c', e, k) =
              write_loop-Live A h0.0 rounds c2 h (open_db-Live A (dbenv_of c) c.server r) in
            (
              (finish h0.0 eid.0 c').0,
              (finish h0.0 eid.0 c').1,
              ground (arith, p, q, r, e),
              finish-IsEnd config h0.0 eid.0 c' k,
            )
      ]
    ]
  ]
    where
      c : PgWriter P N
      c = record (snmp_initialize now config) { stop_request = false }

      h0 : ℤ × N.State
      h0 = N.socket af_sp nn_bus c.nn

      eid : ℤ × N.State
      eid = N.bind h0.0 c.message_url h0.1

      o : ℤ × N.State
      o = N.setsockopt h0.0 nn_sol_socket nn_rcvtimeo (le_bytes 4 1000) eid.1

      opened : Bool × PgEnv × P.State
      opened = open_db P (dbenv_of c) c.server

      c2 : PgWriter P N
      c2 = record c { nn = o.1; env = opened.1; server = opened.2 }

module _ {P : Pq} {N : Nn} where
  -- A packet is received whole, and the server refuses to begin a transaction: when the loop then
  -- ends, the connection has been closed twice, by putLog and by closeDb.
  pub refused-closes_twice :
      (accept_socket eid : ℤ) (t : PgRound) (c : PgWriter P N)
      → (N.recv accept_socket (some sizeof_log_entry) c.nn).0 ≡ pos sizeof_log_entry
      → is_command_ok (P.exec c.env.conn begin_stmt c.server).0 ≡ false
      → (finish accept_socket eid (turn accept_socket t c)).1.server
        ≡ P.finish c.env.conn (P.finish c.env.conn (P.exec c.env.conn begin_stmt c.server).2)
  unfolding finish close_db turn put_log check_stmt
  refused-closes_twice accept_socket eid t c whole refused = rw whole (rw refused refl)
