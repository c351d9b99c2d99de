-- ===== src/Tests/Integrity.antt =====
-- Databases that the operations reach, at concrete inputs.
use mathlib.Core.List.{Memᴰ}
use wacs.Prelude.{
  false, true, not, ◌&&◌, ltb_ℤ, Option, some, ◌≡◌, refl, [], pos, length, ◌<◌, arith, take, List,
  ◌%◌,
}
use wacs.Layout.{
  LogKey, LogData, swap16, swap32, le_bytes, log_key_bytes, last_probe_key_bytes, log_data_bytes,
}
use wacs.Lmdb.{mdb_success}
use wacs.Lmdb.Shelf.{at_start, items, here_list, lookup, insert, key_lt}
use wacs.Lmdb.Table.{table_lmdb, table_contract, table-IsRoomy, table, table_put, is_some, on_shelf}
use wacs.Db.Monad.{World, txn_begin, txn_commit, txn_abort, put}
use wacs.LogEntries.{ntoh_log_entry}
use wacs.Db.Query.{feed, time_range}
use wacs.Db.Put.{put_log, put_or_grow, commit_or_grow, log_item, probe_item}
use wacs.Db.Read.{query, read_log}
use wacs.Db.Read.Exact.{Yields, matches}
use wacs.Db.Integrity.Items.{Holds, Holds-at_start}
use wacs.Db.Integrity.Reach.{Reach, here, after, logged, Reach-Holds}
use wacs.Db.Integrity.Parts.{parts, reached-read_log}
use wacs.Db.Integrity.Delivered.{put_log-read_log}
use wacs.Tests.Setup.{world, mac1, packet, past, collect}

abbrev empty : World (table_lmdb false)
empty = world false 9 []

abbrev one : World (table_lmdb false)
one = (put_log 0 0 1500 packet 10 empty).1

empty-Holds : Holds ((table_contract false).view empty.lib)
unfolding table_contract world table
empty-Holds = Holds-at_start [] [] (tt, tt) (tt, tt)

empty-Reach : Reach empty one
empty-Reach = after here (logged 0 0 1500 packet 10 empty refl)

Reach-Holds_example : Holds ((table_contract false).view one.lib)
Reach-Holds_example = Reach-Holds (table_contract false) empty empty-Holds one empty-Reach

few_stored : length ((table_contract false).view one.lib).committed < 9
unfolding put_log put_or_grow commit_or_grow txn_begin txn_commit txn_abort put ntoh_log_entry
    swap16 log_data_bytes table_lmdb table_contract table_put world table log_item probe_item
    at_start items here_list lookup insert is_some on_shelf key_lt log_key_bytes
    last_probe_key_bytes le_bytes swap32
few_stored = omega arith

stored_ok : (put_log 0 0 1500 packet 10 empty).0 ≡ mdb_success
unfolding put_log put_or_grow commit_or_grow txn_begin txn_commit txn_abort put ntoh_log_entry
    swap16 log_data_bytes table_lmdb table_contract table_put world table log_item probe_item
    at_start items here_list lookup insert is_some on_shelf key_lt log_key_bytes
    last_probe_key_bytes le_bytes swap32
stored_ok = refl

in_time :
    (not (ltb_ℤ (query (some mac1) (pos 3) (pos 0) (pos 1800)).finish (pos 1500))
      && not (ltb_ℤ (pos 1500) (query (some mac1) (pos 3) (pos 0) (pos 1800)).start))
    ≡ true
unfolding query time_range
in_time = refl

reached-read_log_example :
    Yields
      (read_log past 0 9 (some mac1) (pos 3) (pos 0) (pos 1800) (some collect) (some []) one).0
      (feed collect
        (matches
          (query (some mac1) (pos 3) (pos 0) (pos 1800))
          (take 3 mac1)
          (parts (table_contract false) empty empty-Holds one empty-Reach).logs)
        [])
reached-read_log_example =
    reached-read_log (table_contract false) past 0 9 mac1 collect [] 3 (pos 0) (pos 1800) empty
      empty-Holds one empty-Reach refl (omega arith) few_stored

put_log-read_log_example :
    (ds : List (LogKey × Option LogData)) × Memᴰ
      (
        record { sa = mac1; dt = 1500 },
        some (record { device_id = swap16 256; ssi_signal = swap16 46079 % 256 }),
      )
      ds
    × Yields
        (read_log past 0 9 (some mac1) (pos 3) (pos 0) (pos 1800) (some collect) (some []) one).0
        (feed collect ds [])
put_log-read_log_example =
    put_log-read_log (table_contract false) table-IsRoomy past 0 0 0 9 1500 10 packet collect [] 3
      (pos 0) (pos 1800) empty empty-Holds refl (omega arith) (omega arith) in_time stored_ok
      few_stored
