-- ===== src/Db/Integrity/Operations.antt =====
-- putLog, putLogEntries, readLog and readLastProbe keep the database whole, on each branch, whatever
-- the library answers, and on any fuel.
use wacs.Prelude.{
  ℕ, ◌+◌, ◌%◌, ℤ, pos, ◌≡◌, Option, none, some, List, [], ◌∷◌, All, length, ltb, if◌then◌else◌,
}
use wacs.Layout.{Bytes, LogEntry, LogData, LogRecord, sizeof_log_entry}
use wacs.LogEntries.{ntoh_log_entry}
use wacs.ErrorCodes.{
  errcode_no_memory, errcode_lmdb_txn_begin, errcode_lmdb_put, errcode_lmdb_put_probe,
  errcode_wrong_param, errcode_lmdb_txn_commit,
}
use wacs.Lmdb.{Lmdb, Item, set_range}
use wacs.Lmdb.Contract.{Contract}
use wacs.Db.Monad.{pure}
use wacs.Db.Query.{fails, OnLog}
use wacs.Db.Loop.{Next}
use wacs.Db.Put.{put_or_grow, commit_or_grow, put_log, put_records, put_log_entries}
use wacs.Db.Read.{
  query, log_seek_key, probe_seek_key, read_log_step, read_last_probe_step, read_from, read_log,
  read_last_probe,
}
use wacs.Db.Integrity.Items.{IsStored, log_item-IsStored, probe_item-IsStored}
use wacs.Db.Integrity.Calls.{
  Keeps, pure-Keeps, bind-Keeps, if-Keeps, check-Keeps, elim_option-Keeps, begin-Keeps,
  commit-Keeps, put-Keeps, cursor_open-Keeps, cursor_get-Keeps, loop-Keeps,
}
use wacs.Db.Integrity.Env.{grow-Keeps, give_up, end_with}

module _ {L : Lmdb} (C : Contract L) where
  put_or_grow-Keeps : (i : Item) → IsStored i → Keeps C (put_or_grow i)
  unfolding put_or_grow
  put_or_grow-Keeps (k, v) p = grow-Keeps C (put-Keeps k v p)

  commit_or_grow-Keeps : Keeps C commit_or_grow
  unfolding commit_or_grow
  commit_or_grow-Keeps = grow-Keeps C commit-Keeps

  pub put_log-Keeps :
      (key_pad data_pad now : ℕ) (packet : LogEntry) (size : ℕ)
      → length packet.sa ≡ 6
      → Keeps C (put_log key_pad data_pad now packet size)
  unfolding put_log ntoh_log_entry
  put_log-Keeps key_pad data_pad now packet size six =
      let entry = ntoh_log_entry packet in
      let d : LogData = record {
        device_id = entry.device_id;
        ssi_signal = entry.ssi_signal % 256;
      } in
      if-Keeps (ltb size sizeof_log_entry) (pure-Keeps errcode_no_memory) (
        check-Keeps begin-Keeps (λ r. pure-Keeps errcode_lmdb_txn_begin)
          (λ r.
            check-Keeps
              (put_or_grow-Keeps _ (log_item-IsStored key_pad data_pad entry.sa now d six))
              (λ r. give_up C errcode_lmdb_put)
              (λ r.
                check-Keeps (put_or_grow-Keeps _ (probe_item-IsStored entry.sa now six))
                  (λ r. give_up C errcode_lmdb_put_probe)
                  (λ r.
                    bind-Keeps commit_or_grow-Keeps
                      (λ r. pure-Keeps (if fails r then errcode_lmdb_txn_commit else r))))))

  put_records-Keeps :
      (key_pad data_pad : ℕ) (ns : List LogRecord) (c : ℕ)
      → All (λ n. length n.sa ≡ 6) ns
      → Keeps C (put_records key_pad data_pad ns c)
  unfolding put_records
  put_records-Keeps key_pad data_pad [] c six =
      bind-Keeps commit-Keeps (λ r. pure-Keeps (if fails r then errcode_lmdb_txn_commit else pos c))
  put_records-Keeps key_pad data_pad (n ∷ ns) c six =
      let d : LogData = record { device_id = n.device_id; ssi_signal = n.ssi_signal } in
      check-Keeps (put_or_grow-Keeps _ (log_item-IsStored key_pad data_pad n.sa n.dt d six.0))
        (λ r. give_up C errcode_lmdb_put)
        (λ r.
          check-Keeps (put_or_grow-Keeps _ (probe_item-IsStored n.sa n.dt six.0))
            (λ r. give_up C errcode_lmdb_put_probe)
            (λ r. put_records-Keeps key_pad data_pad ns (c + 1) six.1))

  pub put_log_entries-Keeps :
      (key_pad data_pad : ℕ) (ns : List LogRecord)
      → All (λ n. length n.sa ≡ 6) ns
      → Keeps C (put_log_entries key_pad data_pad ns)
  unfolding put_log_entries
  put_log_entries-Keeps key_pad data_pad ns six =
      check-Keeps begin-Keeps (λ r. pure-Keeps errcode_lmdb_txn_begin)
        (λ r. put_records-Keeps key_pad data_pad ns 0 six)

  read_from-Keeps :
      {E : Type 0} (fuel : ℕ) (k : Bytes) (step : Item → E → Next E) (e : E)
      → Keeps C (read_from fuel k step e)
  unfolding read_from
  read_from-Keeps fuel k step e =
      check-Keeps begin-Keeps (λ r. pure-Keeps (some (errcode_lmdb_txn_begin, e)))
        (λ r. bind-Keeps cursor_open-Keeps (λ c. if-Keeps (fails c.0) (end_with C (some (c.0, e))) (
          bind-Keeps (cursor_get-Keeps c.1 (set_range k)) (λ g.
            if-Keeps (fails g.0) (end_with C (some (g.0, e))) (
              bind-Keeps
                (loop-Keeps c.1 (λ i x. pure (step i x)) (λ i x. pure-Keeps (step i x)) fuel g.1 e)
                (λ o. elim_option-Keeps o (pure-Keeps none) (λ e'. bind-Keeps commit-Keeps (λ r.
                  pure-Keeps (some (if fails r then errcode_lmdb_txn_commit else r, e'))))))))))

  module _ {E : Type 0} (past : Bytes → ℕ → ℕ) (sa : Option Bytes) (sa_size start finish : ℤ) where
    pub read_log-Keeps :
        (pad fuel : ℕ) (f : Option (OnLog E)) (e : Option E)
        → Keeps C (read_log past pad fuel sa sa_size start finish f e)
    unfolding read_log
    read_log-Keeps pad fuel f none = pure-Keeps (some (errcode_wrong_param, none))
    read_log-Keeps pad fuel none (some e) = pure-Keeps (some (errcode_wrong_param, some e))
    read_log-Keeps pad fuel (some f) (some e) =
        bind-Keeps
          (read_from-Keeps fuel (log_seek_key pad sa sa_size start)
            (read_log_step past (query sa sa_size start finish) f) e)
          (λ o. pure-Keeps (elim o [ none ↦ none | some (r, e') ↦ some (r, some e') ]))

    pub read_last_probe-Keeps :
        (fuel : ℕ) (f : Option (OnLog E)) (e : Option E)
        → Keeps C (read_last_probe past fuel sa sa_size start finish f e)
    unfolding read_last_probe
    read_last_probe-Keeps fuel f none = pure-Keeps (some (errcode_wrong_param, none))
    read_last_probe-Keeps fuel none (some e) = pure-Keeps (some (errcode_wrong_param, some e))
    read_last_probe-Keeps fuel (some f) (some e) =
        bind-Keeps
          (read_from-Keeps fuel (probe_seek_key sa sa_size)
            (read_last_probe_step past (query sa sa_size start finish) f) e)
          (λ o. pure-Keeps (elim o [ none ↦ none | some (r, e') ↦ some (r, some e') ]))
