-- ===== src/Http.antt =====
-- The request handlers of http-server.cpp that read the database.
pub mod Params
pub mod Paging
pub mod Files
pub use Params.{
  RequestType, rt_log, rt_last_log, rt_log_count, rt_last_log_count, rt_macs_per_time, rt_unknown,
  RequestParams,
}
use wacs.Prelude.{
  ℕ, zero, suc, ◌+◌, ◌-◌, ◌%◌, ◌^◌, Bool, true, false, not, ◌&&◌, Option, none, some, List, [], ◌∷◌,
  ◌++◌, ℤ, pos, negsuc, take, drop, length, ltb, leb, ltb_ℤ, eq_ℤ, ◌==◌, if◌then◌else◌,
}
use wacs.Layout.{Bytes, LogKey, LogData}
use wacs.Text.{
  decimal, signed_decimal, from_i8, json_sa, json_dt, json_device_id, json_ssi_signal, json_end,
}
use wacs.LogEntries.Scan.{mactostr, strtomacaddress, Scanner}
use wacs.Histogram.{
  HistogramMacsPerTime, histogram_macs_per_time, to_json, blank_last_comma, on_log_histogram,
}
use wacs.ErrorCodes.{errcode_lmdb_open, errcode_lmdb_close}
use wacs.Lmdb.{Lmdb}
use wacs.Db.Monad.{M, World, DbEnv, pure, ◌>>=◌, ◌>>◌}
use wacs.Db.Env.{open_db, close_db}
use wacs.Db.Query.{OnLog, bytes_eq}
use wacs.Db.Read.{read_log, read_last_probe}

-- `struct ReqEnv`: unsigned numbers of 64 bits, and the text written so far.
pub record ReqEnv : Type 0 where
  pub retval : Bytes
  pub sum : ℕ
  pub position : ℕ
  pub offset : ℕ
  pub count : ℕ

-- The text of one record.
unfoldable pub record_json : LogKey → Option LogData → Bytes
unfolding mactostr decimal signed_decimal from_i8
record_json key d =
    json_sa
    ++ mactostr key.sa
    ++ json_dt
    ++ decimal key.dt
    ++ elim d [
      | none ↦ []
      | some x ↦
          json_device_id
          ++ decimal x.device_id
          ++ json_ssi_signal
          ++ signed_decimal (from_i8 x.ssi_signal)
    ]
    ++ json_end

-- onReqLog
unfoldable pub on_req_log : OnLog ReqEnv
unfolding record_json
on_req_log req key d =
    if ltb req.position req.offset
    then (false, record req { position = (req.position + 1) % 2 ^ 64 })
    else if leb ((req.offset + req.count) % 2 ^ 64) req.position
    then (true, req)
    else (
      false,
      record req {
        position = (req.position + 1) % 2 ^ 64;
        retval = req.retval ++ record_json key d;
      },
    )

-- onReqLogCount. The sum is an `int`, whose overflow is undefined; it is taken modulo 2^32.
unfoldable pub on_req_log_count : OnLog ReqEnv
on_req_log_count req key d = (false, record req { sum = (req.sum + 1) % 2 ^ 32 })

-- The fields of `WacsHttpConfig` that the handlers read.
pub record WacsHttpConfig : Type 0 where
  pub path : Bytes
  pub flags : ℤ
  pub mode : ℤ
  pub queue : ℤ
  pub count : ℕ

-- An `int` as a `size_t`.
unfoldable pub to_size : ℤ → ℕ
to_size (pos n) = n % 2 ^ 64
to_size (negsuc n) = 2 ^ 64 - 1 - n % 2 ^ 64

unfoldable pub req_env : WacsHttpConfig → RequestParams → ReqEnv
unfolding to_size
req_env config params = record {
  retval = b'[' ∷ [];
  sum = 0;
  position = 0;
  offset = to_size params.offset;
  count = if eq_ℤ params.count (pos 0) then config.count else to_size params.count;
}

-- `if (env.sum) ss << env.sum << ","`
unfoldable pub add_sum : ReqEnv → ReqEnv
unfolding decimal
add_sum req =
    if req.sum == 0 then req else record req { retval = req.retval ++ decimal req.sum ++ b',' ∷ [] }

-- A request opens a database of its own.
unfoldable pub fresh : {L : Lmdb} → WacsHttpConfig → World L → World L
fresh config w = record w {
  db = record {
    env = 0;
    dbi = 0;
    txn = 0;
    path = config.path;
    flags = config.flags;
    mode = config.mode;
    queue = config.queue;
  };
}

abbrev pub Reader : Lmdb → Type 0 → Type 0
Reader L E = Option Bytes → ℤ → ℤ → ℤ → Option (OnLog E) → Option E → M L (Option (ℤ × Option E))

-- The loop of lsLog, lsLastProbe and macsPerTime over the addresses: the answer of the reader is not
-- looked at. `after` is what follows each call.
unfoldable pub read_each :
    {L : Lmdb} {E : Type 0}
    → Scanner
    → Reader L E
    → ℤ
    → ℤ
    → OnLog E
    → (E → E)
    → List Bytes
    → E
    → M L (Option E)
unfolding strtomacaddress
read_each scan read start finish f after [] e = pure (some e)
read_each scan read start finish f after (m ∷ ms) e =
    let mac = strtomacaddress scan m in
    do
      o ←
          read (if ltb_ℤ (pos 0) mac.0 then some mac.1 else none) mac.0 start finish (some f)
            (some e)
      elim o [
        | some (r, some e') ↦ read_each scan read start finish f after ms (after e')
        | _ ↦ pure none
      ]

-- lsLog with readLog, and lsLastProbe with readLastProbe: the empty text is a failure.
unfoldable pub ls_with :
    {L : Lmdb}
    → Scanner
    → Reader L ReqEnv
    → WacsHttpConfig
    → RequestParams
    → OnLog ReqEnv
    → M L (Option Bytes)
unfolding open_db close_db read_each add_sum req_env blank_last_comma
ls_with scan read config params f = do
  opened ← open_db
  if not opened then pure (some []) else do
    o ← read_each scan read params.start params.finish f add_sum params.sa (req_env config params)
    elim o [
      | none ↦ pure none
      | some req ↦ do
        closed ← close_db
        pure (some (if not closed then [] else blank_last_comma (req.retval ++ b']' ∷ [])))
    ]

-- macsPerTime
unfoldable pub macs_per_time :
    {L : Lmdb}
    → Scanner
    → Reader L HistogramMacsPerTime
    → RequestParams
    → HistogramMacsPerTime
    → M L (Option (ℤ × HistogramMacsPerTime))
unfolding open_db close_db read_each on_log_histogram
macs_per_time scan read params h = do
  opened ← open_db
  if not opened then pure (some (errcode_lmdb_open, h)) else do
    o ← read_each scan read params.start params.finish on_log_histogram (λ x. x) params.sa h
    elim o [
      | none ↦ pure none
      | some h' ↦ do
        closed ← close_db
        pure (some ((if not closed then errcode_lmdb_close else pos 0), h'))
    ]

-- The text that httpHandler answers to a GET without data, or `file` for a path that is not one of
-- the five: the handler then looks for a file, which is not modelled. An empty text is the 500 page.
pub data Answer : Type 0 where
  file : Answer
  text : Bytes → Answer

unfoldable pub http_handler :
    {L : Lmdb}
    → Scanner
    → (Bytes → ℕ → ℕ)
    → ℕ
    → ℕ
    → WacsHttpConfig
    → RequestParams
    → M L (Option Answer)
unfolding ls_with macs_per_time read_log read_last_probe to_json histogram_macs_per_time fresh
http_handler {L} scan past pad fuel config params w =
    let logs : Reader L ReqEnv = read_log past pad fuel in
    let probes : Reader L ReqEnv = read_last_probe past fuel in
    elim params.request_type [
      | rt_log ↦ answer (ls_with scan logs config params on_req_log (fresh config w))
      | rt_last_log ↦ answer (ls_with scan probes config params on_req_log (fresh config w))
      | rt_log_count ↦ answer (ls_with scan logs config params on_req_log_count (fresh config w))
      | rt_last_log_count ↦
          answer (ls_with scan probes config params on_req_log_count (fresh config w))
      | rt_macs_per_time ↦
          let h =
            macs_per_time scan (read_log past pad fuel) params
              (histogram_macs_per_time params.start params.finish params.step) (fresh config w) in
          (
            elim h.0 [
              | none ↦ none
              | some (r, h') ↦ some (
                  text (
                    if eq_ℤ r (pos 0)
                    then to_json h'
                    else (b'E' ∷ b'r' ∷ b'r' ∷ b'o' ∷ b'r' ∷ b' ' ∷ b':' ∷ []) ++ signed_decimal r))
            ],
            h.1,
          )
      | rt_unknown ↦ (some file, w)
    ]
  where
    answer : Option Bytes × World L → Option Answer × World L
    answer (none, u) = (none, u)
    answer (some t, u) = (some (text t), u)
