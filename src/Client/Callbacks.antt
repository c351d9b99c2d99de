-- ===== src/Client/Callbacks.antt =====
-- The callbacks of wacsc.cpp.
use wacs.Prelude.{
  ℕ, ◌+◌, ◌-◌, ◌%◌, ◌^◌, Bool, true, false, not, ◌&&◌, Option, none, some, [], ◌∷◌, ◌++◌, pos, ltb,
  leb, ◌==◌, if◌then◌else◌,
}
use wacs.Layout.{Bytes, LogKey, LogData}
use wacs.Text.{decimal, signed_decimal, from_i8}
use wacs.LogEntries.Scan.{mactostr}
use wacs.Histogram.{HistogramMacsPerTime, put}
use wacs.Db.Query.{OnLog}
use wacs.Db.Notification.{OnNotification}

-- `struct ReqEnv`, with what has been written to the standard output. The interrupt is the flag that
-- the signal handler sets; it is fixed during a run.
pub record ReqEnv : Type 0 where
  pub interrupt_flag : Bool
  pub position : ℕ
  pub offset : ℕ
  pub count : ℕ
  pub sum : ℕ
  pub out : Bytes

-- The line that onLog writes. `time_t2string` prints a local time by the C library.
unfoldable pub log_line : (ℕ → Bytes) → LogKey → Option LogData → Bytes
unfolding mactostr decimal signed_decimal from_i8
log_line time_t2string key d =
    mactostr key.sa
    ++ 9 ∷ time_t2string key.dt
    ++ elim d [
      | none ↦ []
      | some x ↦ 9 ∷ decimal x.device_id ++ 9 ∷ signed_decimal (from_i8 x.ssi_signal)
    ]
    ++ 10 ∷ []

-- onLog; a count of -1 is no limit.
unfoldable pub on_log : (ℕ → Bytes) → OnLog ReqEnv
unfolding log_line
on_log time_t2string e key d =
    if ltb e.position e.offset
    then (false, record e { position = (e.position + 1) % 2 ^ 64 })
    else if not (e.count == 2 ^ 64 - 1) && leb ((e.offset + e.count) % 2 ^ 64) e.position
    then (true, e)
    else (
      e.interrupt_flag,
      record e {
        position = (e.position + 1) % 2 ^ 64;
        out = e.out ++ log_line time_t2string key d;
      },
    )

-- onLogCount
unfoldable pub on_log_count : OnLog ReqEnv
on_log_count e key d = (e.interrupt_flag, record e { sum = (e.sum + 1) % 2 ^ 64 })

-- onLogHistogram, with the global interrupt flag.
unfoldable pub on_log_histogram : Bool → OnLog HistogramMacsPerTime
unfolding put
on_log_histogram interrupt h key d = (interrupt, put (pos key.dt) h)

-- onNotification, with the text of its stream.
unfoldable pub on_notification : Bool → OnNotification Bytes
unfolding mactostr
on_notification interrupt strm sa json = (interrupt, strm ++ mactostr sa ++ 9 ∷ json ++ 10 ∷ [])
