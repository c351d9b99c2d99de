-- ===== src/Db/Integrity/Reach.antt =====
-- Runs of the operations of dblog.cpp, in any order and with any arguments, and what every database
-- that they reach holds.
use wacs.Prelude.{ℕ, ◌≡◌, ℤ, List, All, Option, length}
use wacs.Layout.{Bytes, LogEntry, LogRecord}
use wacs.Lmdb.{Lmdb}
use wacs.Lmdb.Contract.{Contract}
use wacs.Db.Monad.{World}
use wacs.Db.Env.{open_db, close_db}
use wacs.Db.Query.{OnLog}
use wacs.Db.Put.{put_log, put_log_entries}
use wacs.Db.Read.{read_log, read_last_probe}
use wacs.Db.Remove.{rm_log}
use wacs.Db.Notification.{
  OnNotification, put_notification, get_notification, rm_notification, ls_notification,
}
use wacs.Db.Integrity.Items.{Holds}
use wacs.Db.Integrity.Env.{open_db-Keeps, close_db-Keeps}
use wacs.Db.Integrity.Operations.{
  put_log-Keeps, put_log_entries-Keeps, read_log-Keeps, read_last_probe-Keeps,
}
use wacs.Db.Integrity.Removals.{
  rm_log-Keeps, rm_notification-Keeps, put_notification-Keeps, get_notification-Keeps,
  ls_notification-Keeps,
}

-- One call: what memory holds, the fuel of the loops and the arguments are arbitrary, but an address
-- that is stored has six bytes.
pub data Step {L : Lmdb} : World L → World L → Type 1 where
  opened : (w : World L) → Step w (open_db w).1
  closed : (w : World L) → Step w (close_db w).1
  logged :
      (key_pad data_pad now : ℕ) (packet : LogEntry) (size : ℕ) (w : World L)
      → length packet.sa ≡ 6
      → Step w (put_log key_pad data_pad now packet size w).1
  logged_all :
      (key_pad data_pad : ℕ) (ns : List LogRecord) (w : World L)
      → All (λ n. length n.sa ≡ 6) ns
      → Step w (put_log_entries key_pad data_pad ns w).1
  read :
      {E : Type 0} (past : Bytes → ℕ → ℕ) (pad fuel : ℕ) (sa : Option Bytes)
      (sa_size start finish : ℤ) (f : Option (OnLog E)) (e : Option E) (w : World L)
      → Step w (read_log past pad fuel sa sa_size start finish f e w).1
  read_last :
      {E : Type 0} (past : Bytes → ℕ → ℕ) (fuel : ℕ) (sa : Option Bytes) (sa_size start finish : ℤ)
      (f : Option (OnLog E)) (e : Option E) (w : World L)
      → Step w (read_last_probe past fuel sa sa_size start finish f e w).1
  removed :
      (past : Bytes → ℕ → ℕ) (pad fuel : ℕ) (sa : Option Bytes) (sa_size start finish : ℤ)
      (w : World L)
      → Step w (rm_log past pad fuel sa sa_size start finish w).1
  noted :
      (over sa value : Bytes) (w : World L)
      → length sa ≡ 6
      → Step w (put_notification over sa value w).1
  note_read : (retval sa : Bytes) (w : World L) → Step w (get_notification retval sa w).1
  notes_listed :
      {E : Type 0} (past : Bytes → ℕ → ℕ) (fuel : ℕ) (f : Option (OnNotification E)) (e : E)
      (w : World L)
      → Step w (ls_notification past fuel f e w).1
  notes_removed :
      (past : Bytes → ℕ → ℕ) (fuel : ℕ) (sa : Bytes) (sa_size : ℕ) (w : World L)
      → Step w (rm_notification past fuel sa sa_size w).1

pub data Reach {L : Lmdb} (s : World L) : World L → Type 1 where
  here : Reach s s
  after : {t u : World L} → Reach s t → Step t u → Reach s u

module _ {L : Lmdb} (C : Contract L) where
  Step-Holds : {w u : World L} → Step w u → Holds (C.view w.lib) → Holds (C.view u.lib)
  Step-Holds (opened w) h = (open_db-Keeps C).keeps w h
  Step-Holds (closed w) h = (close_db-Keeps C).keeps w h
  Step-Holds (logged key_pad data_pad now packet size w six) h =
      (put_log-Keeps C key_pad data_pad now packet size six).keeps w h
  Step-Holds (logged_all key_pad data_pad ns w six) h =
      (put_log_entries-Keeps C key_pad data_pad ns six).keeps w h
  Step-Holds (read past pad fuel sa sa_size start finish f e w) h =
      (read_log-Keeps C past sa sa_size start finish pad fuel f e).keeps w h
  Step-Holds (read_last past fuel sa sa_size start finish f e w) h =
      (read_last_probe-Keeps C past sa sa_size start finish fuel f e).keeps w h
  Step-Holds (removed past pad fuel sa sa_size start finish w) h =
      (rm_log-Keeps C past pad fuel sa sa_size start finish).keeps w h
  Step-Holds (noted over sa value w six) h = (put_notification-Keeps C over sa value six).keeps w h
  Step-Holds (note_read retval sa w) h = (get_notification-Keeps C retval sa).keeps w h
  Step-Holds (notes_listed past fuel f e w) h = (ls_notification-Keeps C past fuel f e).keeps w h
  Step-Holds (notes_removed past fuel sa sa_size w) h =
      (rm_notification-Keeps C past fuel sa sa_size).keeps w h

  -- Whatever calls are made, in any order, with whatever answers of the library, from a database that
  -- is in key order and holds only whole log entries and items behind them, what is committed and
  -- what an open transaction holds stays so; the addresses that are stored have six bytes.
  pub Reach-Holds :
      (s : World L) → Holds (C.view s.lib) → (w : World L) → Reach s w → Holds (C.view w.lib)
  Reach-Holds s h _ here = h
  Reach-Holds s h _ (after {t} r step) = Step-Holds step (Reach-Holds s h t r)
