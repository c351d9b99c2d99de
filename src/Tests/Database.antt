-- ===== src/Tests/Database.antt =====
-- The log of the database at concrete inputs.
use wacs.Prelude.{
  ℕ, take, replicate, ◌≡◌, ◌≢◌, ◌<◌, refl, List, [], ◌∷◌, ◌++◌, pos, true, false, none, some, map,
  length, inl, inr, arith, All, ap,
}
use wacs.Layout.{log_key_bytes, last_probe_key_bytes, log_data_bytes, swap16, swap32, le_bytes}
use wacs.Lmdb.{Item, mdb_success, mdb_map_full}
use wacs.Lmdb.Table.{table_lmdb, table_contract, table-IsRoomy, table, table_put, is_some, on_shelf}
use wacs.Lmdb.Shelf.{key_lt, committed-at_start, at_start, items, here_list, lookup, insert}
use wacs.Db.Monad.{
  put, txn_begin, txn_commit, txn_abort, env_create, env_open, env_close, env_info, env_set_mapsize,
  dbi_open, dbi_close, clear_env,
}
use wacs.Db.Env.{process_map_full, open_db, close_db}
use wacs.LogEntries.{ntoh_log_entry}
use wacs.Db.Query.{feed}
use wacs.Db.Transaction.{Stands, process_map_full-Stands}
use wacs.Db.Stored.{IsEntry, Sorted, entry_item, entry_key}
use wacs.Db.Put.{put_log, put_log_entries, put_or_grow, commit_or_grow, log_item, probe_item}
use wacs.Db.Put.Stores.{IsAtomic, put_item, stored_log, stored_probe, put_log-IsAtomic}
use wacs.Db.Put.Batch.{store_records, put_log_entries-IsAtomic}
use wacs.Db.Put.Full.{put_log-full_loses}
use wacs.Db.Read.{read_log, query, log_seek_key}
use wacs.Db.Read.Walk.{from_key, visible_logs}
use wacs.Db.Read.Exact.{Yields, matches, read_log-eq-feed}
use wacs.Db.Read.Results.{read_log-partial_complete, read_log-whole_complete}
use wacs.Db.Remove.{rm_log}
use wacs.Db.Remove.Outcome.{Removes}
use wacs.Db.Remove.Whole.{unmatched}
use wacs.Db.Remove.Matching.{rm_log-whole_matches, rm_log-partial_matches}
use wacs.Tests.Setup.{
  world, mac1, packet, entries, record1, past, collect, world-Committed, deletes,
}

put_log-IsAtomic_example :
    IsAtomic
      (table_contract false)
      mdb_success
      (put_item (stored_probe 5 packet) (put_item (stored_log 0 0 5 packet) []))
      []
      (put_log 0 0 5 packet 10 (world false 9 []))
put_log-IsAtomic_example =
    put_log-IsAtomic (table_contract false) table-IsRoomy [] 0 0 5 10 packet (world false 9 [])
      (world-Committed false 9 [])

put_log_entries-IsAtomic_example :
    IsAtomic
      (table_contract false)
      (pos 1)
      (store_records 0 0 (record1 ∷ []) [])
      []
      (put_log_entries 0 0 (record1 ∷ []) (world false 9 []))
put_log_entries-IsAtomic_example =
    put_log_entries-IsAtomic (table_contract false) table-IsRoomy [] 0 0 (record1 ∷ [])
      (world false 9 []) (world-Committed false 9 [])

entries-IsEntry : All IsEntry entries
entries-IsEntry = (
  record { six = refl; dt_u32 = omega arith; device_u16 = omega arith; signal_i8 = omega arith },
  (
    record { six = refl; dt_u32 = omega arith; device_u16 = omega arith; signal_i8 = omega arith },
    (
      record {
        six = refl;
        dt_u32 = omega arith;
        device_u16 = omega arith;
        signal_i8 = omega arith;
      },
      tt,
    ),
  ),
)

entries-Sorted : Sorted entries
unfolding entry_key log_key_bytes swap32 le_bytes key_lt
entries-Sorted = ((refl, (refl, tt)), ((refl, tt), (tt, tt)))

abbrev stored : List Item
stored = map entry_item entries ++ []

stored_small : length stored < 9
stored_small = omega arith

stored_fits : length ((table_contract false).view (world false 9 stored).lib).committed < 9
unfolding table_contract world table
stored_fits = ground (arith, ap length (committed-at_start stored stored), stored_small)

read_log-partial_complete_example :
    Yields
      (read_log past 0 9
        (some mac1)
        (pos 3)
        (pos 0)
        (pos 1800)
        (some collect)
        (some [])
        (world false 9 stored)).0
      (feed collect
        (matches (query (some mac1) (pos 3) (pos 0) (pos 1800)) (0 ∷ 236 ∷ 10 ∷ []) entries)
        [])
read_log-partial_complete_example =
    read_log-partial_complete (table_contract false) past 0 9 mac1 refl entries [] entries-IsEntry
      entries-Sorted tt collect [] (world false 9 stored) (world-Committed false 9 stored)
      stored_fits 3 (pos 0) (pos 1800) (omega arith)

read_log-whole_complete_example :
    Yields
      (read_log past 0 9
        (some mac1)
        (pos 6)
        (pos 900)
        (pos 1800)
        (some collect)
        (some [])
        (world false 9 stored)).0
      (feed collect (matches (query (some mac1) (pos 6) (pos 900) (pos 1800)) mac1 entries) [])
read_log-whole_complete_example =
    read_log-whole_complete (table_contract false) past 0 9 mac1 refl entries [] entries-IsEntry
      entries-Sorted tt collect [] (world false 9 stored) (world-Committed false 9 stored)
      stored_fits 900 1800 (omega arith) (inr (omega arith)) (refl, (refl, (refl, tt)))

read_log-eq-feed_example :
    Yields
      (read_log past 0 9 none
        (pos 0)
        (pos 0)
        (pos 0)
        (some collect)
        (some [])
        (world false 9 stored)).0
      (feed collect
        (visible_logs past (query none (pos 0) (pos 0) (pos 0)) (
          from_key
            (log_seek_key 0 none (pos 0) (pos 0))
            ((table_contract false).view (world false 9 stored).lib).committed))
        [])
read_log-eq-feed_example =
    read_log-eq-feed (table_contract false) past 0 9 none (pos 0) (pos 0) (pos 0) collect []
      (world false 9 stored) stored_fits

rm_log-whole_matches_example :
    Yields
      (read_log past 0 9
        (some mac1)
        (pos 6)
        (pos 1500)
        (pos 0)
        (some collect)
        (some [])
        (world false 9 stored)).0
      (feed collect (matches (query (some mac1) (pos 6) (pos 1500) (pos 0)) mac1 entries) [])
    × Removes
        (table_contract false)
        (log_key_bytes 0 b'L' mac1 (swap32 1500))
        (world false 9 stored)
        (length (matches (query (some mac1) (pos 6) (pos 1500) (pos 0)) mac1 entries))
        (map entry_item (unmatched (query (some mac1) (pos 6) (pos 1500) (pos 0)) mac1 entries)
          ++ [])
        stored
        (rm_log past 0 9 (some mac1) (pos 6) (pos 1500) (pos 0) (world false 9 stored))
rm_log-whole_matches_example =
    rm_log-whole_matches (table_contract false) (deletes false) past 0 9 mac1 1500 0 entries []
      collect [] (world false 9 stored) refl (omega arith) (inl refl) entries-IsEntry
      (refl, (refl, (refl, tt))) entries-Sorted tt (world-Committed false 9 stored) stored_small

rm_log-partial_matches_example :
    Yields
      (read_log past 0 9
        (some mac1)
        (pos 2)
        (pos 1500)
        (pos 0)
        (some collect)
        (some [])
        (world false 9 stored)).0
      (feed collect
        (matches (query (some mac1) (pos 2) (pos 1500) (pos 0)) (take 2 mac1) entries)
        [])
    × Removes
        (table_contract false)
        (log_key_bytes 0 b'L' (take 2 mac1 ++ replicate 4 0) (swap32 1500))
        (world false 9 stored)
        (length (matches (query (some mac1) (pos 2) (pos 1500) (pos 0)) (take 2 mac1) entries))
        (map entry_item
            (unmatched (query (some mac1) (pos 2) (pos 1500) (pos 0)) (take 2 mac1) entries)
          ++ [])
        stored
        (rm_log past 0 9 (some mac1) (pos 2) (pos 1500) (pos 0) (world false 9 stored))
rm_log-partial_matches_example =
    rm_log-partial_matches (table_contract false) (deletes false) past 0 9 mac1 1500 0 entries []
      collect [] (world false 9 stored) refl (omega arith) (inl refl) entries-IsEntry
      (refl, (refl, (refl, tt))) entries-Sorted tt (world-Committed false 9 stored) stored_small 2
      (omega arith)

-- The map has room for one item.
full_first :
    (put (stored_log 0 0 5 packet).0 (stored_log 0 0 5 packet).1 (txn_begin (world true 1 [])).1).0
    ≡ mdb_success
unfolding put txn_begin table_lmdb table_put world table stored_log at_start items here_list lookup
    insert is_some on_shelf
full_first = refl

full_second :
    (put
      (stored_probe 5 packet).0
      (stored_probe 5 packet).1
      (put
        (stored_log 0 0 5 packet).0
        (stored_log 0 0 5 packet).1
        (txn_begin (world true 1 [])).1).1).0
    ≡ mdb_map_full
unfolding put txn_begin table_lmdb table_put world table stored_log stored_probe log_item probe_item
    at_start items here_list lookup insert is_some on_shelf key_lt log_key_bytes
    last_probe_key_bytes le_bytes swap32
full_second = refl

full_end : (put_log 0 0 5 packet 10 (world true 1 [])).0 ≡ mdb_success
unfolding put_log put_or_grow commit_or_grow process_map_full open_db close_db env_create env_open
    env_close env_info env_set_mapsize dbi_open dbi_close clear_env txn_commit txn_abort
    ntoh_log_entry swap16 log_data_bytes put txn_begin table_lmdb table_put world table stored_log
    stored_probe log_item probe_item at_start items here_list lookup insert is_some on_shelf key_lt
    log_key_bytes last_probe_key_bytes le_bytes swap32
full_end = refl

commits_fit :
    (t : ℕ) (s : (table_lmdb true).State) → ((table_lmdb true).txn_commit t s).0 ≢ mdb_map_full
unfolding table_lmdb
commits_fit t s e = ground (arith, e)

put_log-full_loses_example :
    ((table_contract true).view (put_log 0 0 5 packet 10 (world true 1 [])).1.lib).committed
    ≡ put_item (stored_probe 5 packet) []
put_log-full_loses_example =
    put_log-full_loses (table_contract true) commits_fit [] 0 0 5 10 packet (world true 1 [])
      (world-Committed true 1 []) full_first full_second full_end

process_map_full-Stands_example :
    Stands (table_contract true) stored stored (process_map_full (world true 1 stored)).1
process_map_full-Stands_example =
    process_map_full-Stands (table_contract true) stored (world true 1 stored)
      (world-Committed true 1 stored)
