-- ===== src/Writer.antt =====
-- lmdbwriter.cpp: the loop that receives packets and stores them, and its signals.
pub mod Loop
pub mod Results
pub mod Delivery
use wacs.Prelude.{
  ℕ, ℤ, pos, Bool, true, false, not, ◌||◌, ◌&&◌, Option, none, some, List, [], ◌∷◌, ◌++◌, pos_part,
  eq_ℤ, ltb, if◌then◌else◌,
}
use wacs.Layout.{Bytes, LogEntry, le_bytes, sizeof_log_entry}
use wacs.LogEntries.{ntoh_log_entry}
use wacs.ErrorCodes.{
  err_ok, errcode_no_config, errcode_nn_bind, errcode_nn_shutdown, errcode_lmdb_open,
  errcode_lmdb_close,
}
use wacs.Lmdb.{Lmdb}
use wacs.Db.Monad.{World}
use wacs.Db.Env.{open_db, close_db}
use wacs.Db.Put.{put_log}
use wacs.Mq.{Nn, negative, af_sp, nn_bus, nn_sol_socket, nn_rcvtimeo, eintr}
use wacs.Mq.Sender.{log_entry_at}
use wacs.Monitor.{MonitoringParams, clear, put_packet}
use wacs.Writer.Loop.{loop_until}

-- `WacsConfig` as the writer uses it, and the state of the libraries. `stop_request` is a bool.
pub record Writer (L : Lmdb) (N : Nn) : Type 0 where
  pub stop_request : Bool
  pub message_url : Bytes
  pub path : Bytes
  pub flags : ℤ
  pub mode : ℤ
  pub queue : ℤ
  pub snmp_agent : Bool
  pub counter : MonitoringParams
  pub world : World L
  pub nn : N.State

-- stop and reload for a configuration, and for NULL. `stop_request = 2` stores true in a bool.
unfoldable pub stop : {L : Lmdb} {N : Nn} → Option (Writer L N) → ℤ × Option (Writer L N)
stop none = (errcode_no_config, none)
stop (some c) = (err_ok, some (record c { stop_request = true }))

unfoldable pub reload : {L : Lmdb} {N : Nn} → Option (Writer L N) → ℤ × Option (Writer L N)
reload none = (errcode_no_config, none)
reload (some c) = (err_ok, some (record c { stop_request = true }))

-- What the machine does in one round of the loop: whether a signal has called stop or reload in the
-- meantime, the time, the padding bytes of the stored records, and the bytes that stand behind what
-- was received in the packet's memory.
pub record Round : Type 0 where
  pub signalled : Bool
  pub now : ℕ
  pub key_pad : ℕ
  pub data_pad : ℕ
  pub past : Bytes → ℕ → ℕ

-- "/mdbx.dat"
abbrev pub def_file_name : Bytes
def_file_name = b'/' ∷ b'm' ∷ b'd' ∷ b'b' ∷ b'x' ∷ b'.' ∷ b'd' ∷ b'a' ∷ b't' ∷ []

-- What putLog leaves in the buffer: it swaps the bytes of a packet that is long enough.
unfoldable pub after_put : ℕ → LogEntry → LogEntry
unfolding ntoh_log_entry
after_put size e = if ltb size sizeof_log_entry then e else ntoh_log_entry e

module _ {L : Lmdb} {N : Nn} where
  -- snmpInitialize, at a time; the start of the agent is not modelled.
  unfoldable pub snmp_initialize : ℕ → Writer L N → Writer L N
  snmp_initialize now c = record c {
    counter = record (clear now c.counter) { databasefilename = c.path ++ def_file_name };
  }

  -- One round: receive, and store what was received. A time-out and another error are passed over,
  -- and an interrupted call stops the loop.
  unfoldable pub turn : ℤ → Round → Writer L N → Writer L N
  turn accept_socket t c =
      let (bytes, b, n) = N.recv accept_socket (some sizeof_log_entry) c.nn in
      let c1 = record c { nn = n; stop_request = c.stop_request || t.signalled } in
      let e = log_entry_at t.past b in
      if negative bytes
      then (if eq_ℤ (N.errno n) eintr then record c1 { stop_request = true } else c1)
      else record c1 {
        world = (put_log t.key_pad t.data_pad t.now e (pos_part bytes) c.world).1;
        counter =
            if c.snmp_agent
            then put_packet (some (after_put (pos_part bytes) e)) c.counter
            else c.counter;
      }

  -- The loop, over what happens in its rounds; `none` is a loop that goes on behind them.
  unfoldable pub write_loop : ℤ → List Round → Writer L N → Option (Writer L N)
  write_loop accept_socket = loop_until (λ c. c.stop_request) (turn accept_socket)

  -- What follows the loop. The code of closeDb is overwritten.
  unfoldable pub finish : ℤ → ℤ → Writer L N → ℤ × Writer L N
  finish accept_socket eid c =
      let w = (close_db c.world).1 in
      let (r, n) = N.shutdown accept_socket eid c.nn in
      (
        if not (eq_ℤ r (pos 0)) then errcode_nn_shutdown else r,
        record c { world = w; nn = (N.close accept_socket n).1 },
      )

  -- The loop uses a `dbenv` of its own.
  unfoldable pub fresh : Writer L N → World L
  fresh c = record c.world {
    db = record {
      env = 0;
      dbi = 0;
      txn = 0;
      path = c.path;
      flags = c.flags;
      mode = c.mode;
      queue = c.queue;
    };
  }

  -- run; `queue` is what msgget answers, the message queue of the process and the messages of the log are not modelled.
  unfoldable pub run : ℕ → List Round → Writer L N → Option (ℤ × Writer L N)
  run now rounds config =
      let c = record (snmp_initialize now config) { stop_request = false } in
      let (accept_socket, n1) = N.socket af_sp nn_bus c.nn in
      let (eid, n2) = N.bind accept_socket c.message_url n1 in
      if negative eid
      then some (errcode_nn_bind, record c { nn = n2 })
      else let (o, n3) =
          N.setsockopt accept_socket nn_sol_socket nn_rcvtimeo (le_bytes 4 1000) n2 in
        if negative o
        then some (errcode_nn_bind, record c { nn = n3 })
        else let (opened, w) = open_db (fresh c) in
          if not opened
          then some (errcode_lmdb_open, record c { nn = n3; world = w })
          else elim (write_loop accept_socket rounds (record c { nn = n3; world = w })) [
            | none ↦ none
            | some c' ↦ some (finish accept_socket eid c')
          ]
