-- ===== src/Tests/Writing.antt =====
-- The writer at concrete inputs.
use mathlib.Core.List.{Memᴰ}
use wacs.Prelude.{
  ◌%◌, ◌≡◌, ◌<◌, refl, true, false, not, ◌&&◌, ℤ, pos, Option, some, List, [], ◌∷◌, length, ltb_ℤ,
  arith,
}
use wacs.Layout.{
  LogKey, LogData, swap16, swap32, le_bytes, log_key_bytes, last_probe_key_bytes, log_data_bytes,
  sizeof_log_entry,
}
use wacs.LogEntries.{hton_log_entry, ntoh_log_entry}
use wacs.Lmdb.{mdb_success}
use wacs.Lmdb.Shelf.{at_start, items, here_list, lookup, insert, key_lt}
use wacs.Lmdb.Table.{table_lmdb, table_contract, table-IsRoomy, table, table_put, is_some, on_shelf}
use wacs.Db.Monad.{txn_begin, txn_commit, txn_abort, put}
use wacs.Db.Query.{feed, time_range}
use wacs.Db.Put.{put_log, put_or_grow, commit_or_grow, log_item, probe_item}
use wacs.Db.Read.{query, read_log}
use wacs.Db.Read.Exact.{Yields}
use wacs.Db.Integrity.Items.{Holds, Holds-at_start}
use wacs.Monitor.{new_params}
use wacs.Mq.Sender.{log_entry_bytes, log_entry_at}
use wacs.Writer.{Writer, Round, run, turn}
use wacs.Writer.Loop.{any}
use wacs.Writer.Results.{IsRunCode, run-ends}
use wacs.Writer.Delivery.{sent-read_log}
use wacs.Tests.Setup.{world, mac1, past, collect}
use wacs.Tests.Queue.{loop_nn, loop, take_message, entry}

-- A writer with an empty database, and a packet that waits.
abbrev writer : Writer (table_lmdb false) loop_nn
writer = record {
  stop_request = false;
  message_url = [];
  path = [];
  flags = pos 0;
  mode = pos 0;
  queue = pos 0;
  snmp_agent = true;
  counter = new_params 0;
  world = world false 9 [];
  nn = loop (log_entry_bytes (hton_log_entry entry) ∷ []);
}

abbrev round : Round
round = record { signalled = true; now = 1500; key_pad = 0; data_pad = 0; past = past }

writer-Holds : Holds ((table_contract false).view writer.world.lib)
unfolding table_contract world table
writer-Holds = Holds-at_start [] [] (tt, tt) (tt, tt)

run-ends_example :
    (r : ℤ) × (c : Writer (table_lmdb false) loop_nn) × (run 0 (round ∷ []) writer ≡ some (r, c))
    × IsRunCode r
    × Holds ((table_contract false).view c.world.lib)
unfolding any
run-ends_example = run-ends (table_contract false) 0 (round ∷ []) writer refl writer-Holds

received_size : (loop_nn.recv (pos 3) (some sizeof_log_entry) writer.nn).0 ≡ pos sizeof_log_entry
unfolding loop_nn loop take_message log_entry_bytes le_bytes hton_log_entry swap16
received_size = refl

received_packet :
    (loop_nn.recv (pos 3) (some sizeof_log_entry) writer.nn).1
    ≡ log_entry_bytes (hton_log_entry entry)
unfolding loop_nn loop take_message
received_packet = refl

stored_ok : (put_log 0 0 1500 (hton_log_entry entry) sizeof_log_entry writer.world).0 ≡ mdb_success
unfolding put_log put_or_grow commit_or_grow txn_begin txn_commit txn_abort put ntoh_log_entry
    hton_log_entry swap16 log_data_bytes table_lmdb table_put world table log_item probe_item
    at_start items here_list lookup insert is_some on_shelf key_lt log_key_bytes
    last_probe_key_bytes le_bytes swap32
stored_ok = refl

few_stored :
    length ((table_contract false).view (turn (pos 3) round writer).world.lib).committed < 9
unfolding turn loop_nn loop take_message log_entry_bytes log_entry_at put_log put_or_grow
    commit_or_grow txn_begin txn_commit txn_abort put ntoh_log_entry hton_log_entry swap16
    log_data_bytes table_lmdb table_contract table_put world table log_item probe_item at_start
    items here_list lookup insert is_some on_shelf key_lt log_key_bytes last_probe_key_bytes
    le_bytes swap32
few_stored = omega arith

in_time :
    (not (ltb_ℤ (query (some mac1) (pos 3) (pos 0) (pos 1800)).finish (pos 1500))
      && not (ltb_ℤ (pos 1500) (query (some mac1) (pos 3) (pos 0) (pos 1800)).start))
    ≡ true
unfolding query time_range
in_time = refl

sent-read_log_example :
    (ds : List (LogKey × Option LogData)) × Memᴰ
      (record { sa = mac1; dt = 1500 }, some (record { device_id = 1; ssi_signal = 65461 % 256 }))
      ds
    × Yields
        (read_log past 0 9
          (some mac1)
          (pos 3)
          (pos 0)
          (pos 1800)
          (some collect)
          (some [])
          (turn (pos 3) round writer).world).0
        (feed collect ds [])
sent-read_log_example =
    sent-read_log (table_contract false) table-IsRoomy (pos 3) round writer entry past 0 9 collect
      [] 3 (pos 0) (pos 1800) received_size received_packet stored_ok writer-Holds refl
      (omega arith) (omega arith) (omega arith) in_time few_stored
