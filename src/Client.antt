-- ===== src/Client.antt =====
-- The commands of wacsc.cpp that work on the database.
pub mod LoadLog
pub mod Extract
pub mod Numerals
pub mod Loaded
pub mod Callbacks
pub mod Results
pub mod SendTest
pub use Callbacks.{ReqEnv}
unfoldable pub use Callbacks.{log_line, on_log, on_log_count, on_log_histogram, on_notification}
use wacs.Prelude.{
  ℕ, zero, suc, ◌+◌, ◌-◌, ◌%◌, ◌^◌, Bool, true, false, not, ◌&&◌, Option, none, some, List, [], ◌∷◌,
  ◌++◌, ℤ, pos, negsuc, pos_part, ltb, leb, ltb_ℤ, eq_ℤ, ◌+ℤ◌, ◌==◌, if◌then◌else◌, length,
}
use wacs.Client.LoadLog.{Dates, records_of}
use wacs.Layout.{Bytes, LogKey, LogData, LogRecord}
use wacs.Text.{decimal, signed_decimal, from_i8}
use wacs.LogEntries.Scan.{mactostr, strtomacaddress, Scanner}
use wacs.Histogram.{HistogramMacsPerTime, put}
use wacs.ErrorCodes.{errcode_wrong_param, errcode_lmdb_open, errcode_lmdb_close}
use wacs.Lmdb.{Lmdb}
use wacs.Db.Monad.{M, World, pure, ◌>>=◌, ◌>>◌}
use wacs.Db.Env.{open_db, close_db}
use wacs.Db.Query.{OnLog, bytes_eq}
use wacs.Db.Read.{read_log, read_last_probe}
use wacs.Db.Remove.{rm_log}
use wacs.Db.Put.{put_log_entries}
use wacs.Db.Notification.{OnNotification, put_notification, rm_notification, ls_notification}

-- The fields of `WacscConfig` that the commands read.
pub record WacscConfig : Type 0 where
  pub path : Bytes
  pub flags : ℤ
  pub mode : ℤ
  pub mac : List Bytes
  pub start : ℤ
  pub finish : ℤ

-- A command opens a database of its own.
unfoldable pub fresh : {L : Lmdb} → WacscConfig → World L → World L
fresh config w = record w {
  db = record {
    env = 0;
    dbi = 0;
    txn = 0;
    path = config.path;
    flags = config.flags;
    mode = config.mode;
    queue = pos 0;
  };
}

-- What the commands share: openDb, a body, closeDb. `failed` makes the answer of a command out of an
-- error code where the body has not been run, and where closeDb fails.
unfoldable pub with_db :
    {L : Lmdb} {A : Type 0} → WacscConfig → A → (A → A) → M L (Option A) → M L (Option A)
unfolding open_db close_db fresh
with_db config unopened unclosed body w =
    (do
      opened ← open_db
      if not opened then pure (some unopened) else do
        o ← body
        elim o [
          | none ↦ pure none
          | some a ↦ do closed ← close_db; pure (some (if not closed then unclosed a else a))
        ])
      (fresh config w)

module _ {L : Lmdb} (scan : Scanner) (past : Bytes → ℕ → ℕ) (pad fuel : ℕ)
    (config : WacscConfig) where
  -- The loop of lsLog over the addresses: the first error ends it.
  unfoldable pub ls_log_macs : {E : Type 0} → OnLog E → List Bytes → ℤ → E → M L (Option (ℤ × E))
  unfolding strtomacaddress read_log
  ls_log_macs f [] rr e = pure (some (rr, e))
  ls_log_macs f (m ∷ ms) rr e =
      let mac = strtomacaddress scan m in
      do
        o ← read_log past pad fuel (some mac.1) mac.0 config.start config.finish (some f) (some e)
        elim o [
          | some (r, some e') ↦
              if ltb_ℤ r (pos 0) then pure (some (r, e')) else ls_log_macs f ms (rr +ℤ r) e'
          | _ ↦ pure none
        ]

  -- lsLog
  unfoldable pub ls_log : {E : Type 0} → OnLog E → E → M L (Option (ℤ × E))
  unfolding with_db
  ls_log f e =
      with_db config (errcode_lmdb_open, e) (λ x. (errcode_lmdb_close, x.1))
        (ls_log_macs f config.mac (pos 0) e)

  -- The loop of rmLog over the addresses.
  unfoldable pub rm_log_macs : List Bytes → ℤ → M L (Option ℤ)
  unfolding strtomacaddress rm_log
  rm_log_macs [] rr = pure (some rr)
  rm_log_macs (m ∷ ms) rr =
      let mac = strtomacaddress scan m in
      do
        o ← rm_log past pad fuel (some mac.1) mac.0 config.start config.finish
        elim o [
          | none ↦ pure none
          | some r ↦ if ltb_ℤ r (pos 0) then pure (some r) else rm_log_macs ms (rr +ℤ r)
        ]

  -- rmLog of the client.
  unfoldable pub remove_logs : M L (Option ℤ)
  unfolding with_db
  remove_logs =
      with_db config errcode_lmdb_open (λ x. errcode_lmdb_close) (rm_log_macs config.mac (pos 0))

  -- The loops of lsLastProbe and macsPerTime: the answer of the last reader counts.
  unfoldable pub last_probe_macs :
      {E : Type 0} → OnLog E → List Bytes → ℤ → E → M L (Option (ℤ × E))
  unfolding strtomacaddress read_last_probe
  last_probe_macs f [] r e = pure (some (r, e))
  last_probe_macs f (m ∷ ms) r e =
      let mac = strtomacaddress scan m in
      do
        o ←
            read_last_probe past fuel (some mac.1) mac.0 config.start config.finish (some f)
              (some e)
        elim o [ some (r', some e') ↦ last_probe_macs f ms r' e' | _ ↦ pure none ]

  unfoldable pub ls_last_probe : {E : Type 0} → OnLog E → E → M L (Option (ℤ × E))
  unfolding with_db
  ls_last_probe f e =
      with_db config (errcode_lmdb_open, e) (λ x. (errcode_lmdb_close, x.1))
        (last_probe_macs f config.mac (pos 0) e)

  unfoldable pub macs_per_time_macs :
      Bool → List Bytes → ℤ → HistogramMacsPerTime → M L (Option (ℤ × HistogramMacsPerTime))
  unfolding strtomacaddress read_log on_log_histogram
  macs_per_time_macs interrupt [] r h = pure (some (r, h))
  macs_per_time_macs interrupt (m ∷ ms) r h =
      let mac = strtomacaddress scan m in
      do
        o ←
            read_log past pad fuel (some mac.1) mac.0 config.start config.finish
              (some (on_log_histogram interrupt)) (some h)
        elim o [ some (r', some h') ↦ macs_per_time_macs interrupt ms r' h' | _ ↦ pure none ]

  -- macsPerTime
  unfoldable pub macs_per_time :
      Bool → HistogramMacsPerTime → M L (Option (ℤ × HistogramMacsPerTime))
  unfolding with_db
  macs_per_time interrupt h =
      with_db config (errcode_lmdb_open, h) (λ x. (errcode_lmdb_close, x.1))
        (macs_per_time_macs interrupt config.mac (pos 0) h)

  -- loadLog for the lines of its file; `retval` is the memory of the record that the lines fill.
  unfoldable pub load_log : Dates → ℕ → LogRecord → List Bytes → M L (Option ℤ)
  unfolding with_db put_log_entries
  load_log D data_pad retval lines =
      with_db config errcode_lmdb_open (λ x. errcode_lmdb_close)
        (do r ← put_log_entries pad data_pad (records_of D scan lines retval); pure (some r))

  -- notificationList, with the text of its stream.
  unfoldable pub notification_list : Bool → Bytes → M L (Option (ℤ × Bytes))
  unfolding with_db ls_notification on_notification
  notification_list interrupt strm =
      with_db config (errcode_lmdb_open, strm) (λ x. (errcode_lmdb_close, x.1))
        (ls_notification past fuel (some (on_notification interrupt)) strm)

  -- The loop of notificationPut: an incomplete address is skipped, the first error ends it.
  unfoldable pub put_macs : Bytes → Bytes → List Bytes → ℤ → M L ℤ
  unfolding strtomacaddress put_notification
  put_macs over s [] cnt = pure cnt
  put_macs over s (m ∷ ms) cnt =
      let mac = strtomacaddress scan m in
      let next = put_macs over s ms in
      if ltb_ℤ mac.0 (pos 6) then next cnt else do
        r ← put_notification over mac.1 s
        if not (eq_ℤ r (pos 0)) then pure r else next (cnt +ℤ pos 1)

  -- notificationPut of a text: only the first address is validated.
  unfoldable pub notification_put : Bytes → Bytes → M L (Option ℤ)
  unfolding with_db put_macs strtomacaddress
  notification_put over s =
      if not (elim config.mac [ [] ↦ true | m ∷ _ ↦ eq_ℤ (strtomacaddress scan m).0 (pos 6) ])
      then pure (some errcode_wrong_param)
      else if length s == 0
      then pure (some errcode_wrong_param)
      else with_db config errcode_lmdb_open (λ x. errcode_lmdb_close)
          (do r ← put_macs over s config.mac (pos 0); pure (some r))

  -- The loop of notificationRm. An address that is the empty text makes sscanf answer -1, for which
  -- rmNotification is undefined; it is taken as 0 here.
  unfoldable pub rm_macs : List Bytes → ℤ → M L (Option ℤ)
  unfolding strtomacaddress rm_notification
  rm_macs [] cnt = pure (some cnt)
  rm_macs (m ∷ ms) cnt =
      let mac = strtomacaddress scan m in
      do
        o ← rm_notification past fuel mac.1 (pos_part mac.0)
        elim o [
          | none ↦ pure none
          | some r ↦
              if not (eq_ℤ r (pos 0))
              then pure (some r)
              else rm_macs ms (if ltb_ℤ (pos 0) r then cnt +ℤ r else cnt)
        ]

  -- notificationRm
  unfoldable pub notification_rm : M L (Option ℤ)
  unfolding with_db rm_macs
  notification_rm =
      with_db config errcode_lmdb_open (λ x. errcode_lmdb_close) (rm_macs config.mac (pos 0))
