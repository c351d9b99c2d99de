-- ===== src/Tests/Postgres.antt =====
-- The writer for PostgreSQL at concrete inputs.
use wacs.Prelude.{
  ℕ, ◌≡◌, refl, ap, true, false, Bool, ℤ, pos, some, List, [], ◌∷◌, ◌++◌, if◌then◌else◌,
}
use wacs.Layout.{Bytes, sizeof_log_entry, swap16, le_bytes}
use wacs.LogEntries.{hton_log_entry}
use wacs.Monitor.{new_params}
use wacs.Mq.Sender.{log_entry_bytes}
use wacs.Writer.Loop.{any}
use wacs.Pg.{Pq, Status, command_ok, failed, is_command_ok}
use wacs.Pg.Statements.{begin_stmt}
use wacs.Pg.Live.{Accepts}
use wacs.Pg.Writer.{PgWriter, PgRound, turn, finish, run}
use wacs.Pg.Closing.{IsEnd, run-closes, refused-closes_twice}
use wacs.Tests.Setup.{past}
use wacs.Tests.Queue.{loop_nn, loop, take_message, entry}

-- A server with one connection: whether it is open, and the statements. With `up` it accepts what an
-- open connection asks for, and else it refuses all.
unfoldable status_of : Bool → Status
status_of true = command_ok
status_of false = failed

unfoldable server : Bool → Pq
unfolding status_of
server up = record {
  State = Bool × List Bytes;
  connectdb = λ c s. (1, (true, s.1));
  set_db_login = λ h p o d u w s. (1, (true, s.1));
  connected = λ c s. s.0;
  exec = λ c q s. (if up then status_of s.0 else failed, [], (s.0, s.1 ++ q ∷ []));
  finish = λ c s. (false, s.1);
}

unfoldable IsOpen : ℕ → (server true).State → Type 0
unfolding server
IsOpen conn s = s.0 ≡ true

server-Accepts : Accepts (server true) IsOpen
unfolding server IsOpen status_of
server-Accepts = record {
  connects = λ c s h. h;
  logs_in = λ h p o d u w s k. k;
  stays = λ c q s k. k;
  begins = λ c s k. rw k refl;
  inserts = λ c now d sa ssi s k. rw k refl;
  ends = λ c s k. rw k refl;
}

unfoldable idle : (up : Bool) → (server up).State
unfolding server
idle up = (false, [])

-- A packet waits.
abbrev writer : (up : Bool) → PgWriter (server up) loop_nn
writer up = record {
  stop_request = false;
  message_url = [];
  path = [];
  dbconn = [];
  dboptionsfile = [];
  dbname = [];
  dbuser = [];
  dbpassword = [];
  dbhost = [];
  dbport = [];
  snmp_agent = true;
  counter = new_params 0;
  env = record {
    conn = 1;
    dbconn = [];
    dboptionsfile = [];
    dbname = [];
    dbuser = [];
    dbpassword = [];
    dbhost = [];
    dbport = [];
  };
  server = idle up;
  nn = loop (log_entry_bytes (hton_log_entry entry) ∷ []);
}

abbrev round : PgRound
round = record { signalled = true; now = 1500; past = past }

run-closes_example :
    (r : ℤ) × (c : PgWriter (server true) loop_nn) × (run 0 (round ∷ []) (writer true)
      ≡ some (r, c))
    × IsEnd IsOpen (writer true) r c.server
unfolding any
run-closes_example = run-closes server-Accepts 0 (round ∷ []) (writer true) refl

received_size :
    (loop_nn.recv (pos 3) (some sizeof_log_entry) (writer false).nn).0 ≡ pos sizeof_log_entry
unfolding loop_nn loop take_message log_entry_bytes le_bytes hton_log_entry swap16
received_size = refl

refused : ((server false).exec 1 begin_stmt (idle false)).0 ≡ failed
unfolding server idle
refused = refl

refused-closes_twice_example :
    (finish (pos 3) (pos 1) (turn (pos 3) round (writer false))).1.server
    ≡ (server false).finish 1
        ((server false).finish 1 ((server false).exec 1 begin_stmt (idle false)).2)
refused-closes_twice_example =
    refused-closes_twice (pos 3) (pos 1) round (writer false) received_size
      (ap is_command_ok refused)
