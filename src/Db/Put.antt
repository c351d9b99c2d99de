-- ===== src/Db/Put.antt =====
-- putLog and putLogEntries of dblog.cpp.
pub mod Stores
pub mod Batch
pub mod Full
use wacs.Prelude.{
  ℕ, zero, suc, ◌+◌, ◌%◌, ℤ, pos, Bool, true, false, not, Option, none, some, List, [], ◌∷◌, eq_ℤ,
  ltb, if◌then◌else◌, length,
}
use wacs.Layout.{
  Bytes, LogEntry, LogData, LogRecord, sizeof_log_entry, log_key_bytes, last_probe_key_bytes,
  log_data_bytes, le_bytes, swap32,
}
use wacs.LogEntries.{ntoh_log_entry}
use wacs.ErrorCodes.{
  errcode_no_memory, errcode_lmdb_txn_begin, errcode_lmdb_put, errcode_lmdb_put_probe,
  errcode_lmdb_txn_commit,
}
use wacs.Lmdb.{Lmdb, mdb_success, mdb_map_full}
use wacs.Db.Monad.{M, txn_begin, txn_commit, txn_abort, put, pure, ◌>>=◌, ◌>>◌}
use wacs.Db.Env.{process_map_full}
use wacs.Db.Query.{fails}

-- The items that one log entry is stored as. `pads` are the padding bytes of the local key and data,
-- and `dt` is the 32-bit time.
unfoldable pub log_item : ℕ → ℕ → Bytes → ℕ → LogData → Bytes × Bytes
unfolding log_key_bytes log_data_bytes swap32
log_item key_pad data_pad sa dt d =
    (log_key_bytes key_pad b'L' sa (swap32 dt), log_data_bytes data_pad d)

unfoldable pub probe_item : Bytes → ℕ → Bytes × Bytes
unfolding last_probe_key_bytes le_bytes swap32
probe_item sa dt = (last_probe_key_bytes b'P' sa, le_bytes 8 (swap32 dt))

module _ {L : Lmdb} where
  -- mdb_put, and once more after the map has been enlarged where it was full.
  unfoldable pub put_or_grow : Bytes × Bytes → M L ℤ
  put_or_grow (k, v) = do
    r ← put k v
    if not (eq_ℤ r mdb_map_full)
        then pure r
        else do r ← process_map_full; if fails r then pure r else put k v

  -- The commit of putLog, tried once more after the map has been enlarged.
  unfoldable pub commit_or_grow : M L ℤ
  commit_or_grow = do
    r ← txn_commit
    if not (eq_ℤ r mdb_map_full)
        then pure r
        else do r ← process_map_full; if fails r then pure r else txn_commit

  -- putLog for a packet of the given size at the given time. The packet is converted to the host's
  -- byte order; that this changes the buffer of the caller is not followed.
  unfoldable pub put_log : ℕ → ℕ → ℕ → LogEntry → ℕ → M L ℤ
  put_log key_pad data_pad now packet size =
      let entry = ntoh_log_entry packet in
      let d : LogData = record {
        device_id = entry.device_id;
        ssi_signal = entry.ssi_signal % 256;
      } in
      if ltb size sizeof_log_entry then pure errcode_no_memory else do
        r ← txn_begin
        if fails r then pure errcode_lmdb_txn_begin else do
          r ← put_or_grow (log_item key_pad data_pad entry.sa now d)
          if fails r then (do txn_abort; pure errcode_lmdb_put) else do
            r ← put_or_grow (probe_item entry.sa now)
            if fails r
                then (do txn_abort; pure errcode_lmdb_put_probe)
                else do r ← commit_or_grow; pure (if fails r then errcode_lmdb_txn_commit else r)

  -- The loop of putLogEntries over the records that its callback produces, and what follows it; `c`
  -- counts them. The test of `r` behind the loop never succeeds.
  unfoldable pub put_records : ℕ → ℕ → List LogRecord → ℕ → M L ℤ
  put_records key_pad data_pad [] c = do
    r ← txn_commit
    pure (if fails r then errcode_lmdb_txn_commit else pos c)
  put_records key_pad data_pad (n ∷ ns) c =
      let d : LogData = record { device_id = n.device_id; ssi_signal = n.ssi_signal } in
      let rest = put_records key_pad data_pad ns (c + 1) in
      do
        r ← put_or_grow (log_item key_pad data_pad n.sa n.dt d)
        if fails r then (do txn_abort; pure errcode_lmdb_put) else do
          r ← put_or_grow (probe_item n.sa n.dt)
          if fails r then (do txn_abort; pure errcode_lmdb_put_probe) else rest

  -- putLogEntries
  unfoldable pub put_log_entries : ℕ → ℕ → List LogRecord → M L ℤ
  put_log_entries key_pad data_pad records = do
    r ← txn_begin
    if fails r then pure errcode_lmdb_txn_begin else put_records key_pad data_pad records 0
