-- ===== src/Pg/Writer.antt =====
-- pgwriter.cpp: the loop that receives packets and stores them in PostgreSQL, and its signals.
use wacs.Prelude.{
  ℕ, ℤ, pos, Bool, true, false, not, ◌||◌, Option, none, some, List, ◌++◌, pos_part, eq_ℤ,
  if◌then◌else◌,
}
use wacs.Layout.{Bytes, le_bytes, sizeof_log_entry}
use wacs.ErrorCodes.{
  err_ok, errcode_no_config, errcode_nn_bind, errcode_nn_shutdown, errcode_database_no_connection,
}
use wacs.Monitor.{MonitoringParams, clear, put_packet}
use wacs.Mq.{Nn, negative, af_sp, nn_bus, nn_sol_socket, nn_rcvtimeo, eintr}
use wacs.Mq.Sender.{log_entry_at}
use wacs.Writer.{def_file_name, after_put}
use wacs.Writer.Loop.{loop_until}
use wacs.Pg.{Pq, PgEnv, open_db, close_db, put_log}

-- `WacsPgConfig` as the writer uses it, the `dbenv` of its loop, and the state of the libraries.
pub record PgWriter (P : Pq) (N : Nn) : Type 0 where
  pub stop_request : Bool
  pub message_url : Bytes
  pub path : Bytes
  pub dbconn : Bytes
  pub dboptionsfile : Bytes
  pub dbname : Bytes
  pub dbuser : Bytes
  pub dbpassword : Bytes
  pub dbhost : Bytes
  pub dbport : Bytes
  pub snmp_agent : Bool
  pub counter : MonitoringParams
  pub env : PgEnv
  pub server : P.State
  pub nn : N.State

-- stop and reload for a configuration, and for NULL. `stop_request = 2` stores true in a bool.
unfoldable pub stop : {P : Pq} {N : Nn} → Option (PgWriter P N) → ℤ × Option (PgWriter P N)
stop none = (errcode_no_config, none)
stop (some c) = (err_ok, some (record c { stop_request = true }))

unfoldable pub reload : {P : Pq} {N : Nn} → Option (PgWriter P N) → ℤ × Option (PgWriter P N)
reload none = (errcode_no_config, none)
reload (some c) = (err_ok, some (record c { stop_request = true }))

-- What the machine does in one round of the loop: whether a signal has called stop or reload in the
-- meantime, the time, and the bytes that stand behind what was received in the packet's memory.
pub record PgRound : Type 0 where
  pub signalled : Bool
  pub now : ℕ
  pub past : Bytes → ℕ → ℕ

module _ {P : Pq} {N : Nn} where
  -- snmpInitialize, at a time; the start of the agent is not modelled.
  unfoldable pub snmp_initialize : ℕ → PgWriter P N → PgWriter P N
  snmp_initialize now c = record c {
    counter = record (clear now c.counter) { databasefilename = c.path ++ def_file_name };
  }

  -- The `dbenv` that run fills; openDb sets its connection.
  unfoldable pub dbenv_of : PgWriter P N → PgEnv
  dbenv_of c = record {
    conn = 0;
    dbconn = c.dbconn;
    dboptionsfile = c.dboptionsfile;
    dbname = c.dbname;
    dbuser = c.dbuser;
    dbpassword = c.dbpassword;
    dbhost = c.dbhost;
    dbport = c.dbport;
  }

  -- One round: receive, and store what was received, whatever putLog answers. A time-out and another
  -- error are passed over, and an interrupted call stops the loop.
  unfoldable pub turn : ℤ → PgRound → PgWriter P N → PgWriter P N
  turn accept_socket t c =
      let (bytes, b, n) = N.recv accept_socket (some sizeof_log_entry) c.nn in
      let c1 = record c { nn = n; stop_request = c.stop_request || t.signalled } in
      let e = log_entry_at t.past b in
      if negative bytes
      then (if eq_ℤ (N.errno n) eintr then record c1 { stop_request = true } else c1)
      else record c1 {
        server = (put_log P c.env.conn t.now e (pos_part bytes) c.server).1;
        counter =
            if c.snmp_agent
            then put_packet (some (after_put (pos_part bytes) e)) c.counter
            else c.counter;
      }

  unfoldable pub write_loop : ℤ → List PgRound → PgWriter P N → Option (PgWriter P N)
  write_loop accept_socket = loop_until (λ c. c.stop_request) (turn accept_socket)

  -- What follows the loop. The code of closeDb is overwritten.
  unfoldable pub finish : ℤ → ℤ → PgWriter P N → ℤ × PgWriter P N
  finish accept_socket eid c =
      let s = (close_db P c.env c.server).1 in
      let (r, n) = N.shutdown accept_socket eid c.nn in
      (
        if not (eq_ℤ r (pos 0)) then errcode_nn_shutdown else r,
        record c { server = s; nn = (N.close accept_socket n).1 },
      )

  -- run, over what happens in its rounds; the messages of the log are not modelled.
  unfoldable pub run : ℕ → List PgRound → PgWriter P N → Option (ℤ × PgWriter P N)
  run now rounds config =
      let c = record (snmp_initialize now config) { stop_request = false } in
      let (accept_socket, n1) = N.socket af_sp nn_bus c.nn in
      let (eid, n2) = N.bind accept_socket c.message_url n1 in
      if negative eid
      then some (errcode_nn_bind, record c { nn = n2 })
      else let (o, n3) =
          N.setsockopt accept_socket nn_sol_socket nn_rcvtimeo (le_bytes 4 1000) n2 in
        if negative o
        then some (errcode_nn_bind, record c { nn = n3 })
        else let (opened, env, s) = open_db P (dbenv_of c) c.server in
          let c1 = record c { nn = n3; env = env; server = s } in
          if not opened
          then some (errcode_database_no_connection, c1)
          else elim (write_loop accept_socket rounds c1) [
            | none ↦ none
            | some c' ↦ some (finish accept_socket eid c')
          ]
