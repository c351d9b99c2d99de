-- ===== src/Db/Read.antt =====
-- readLog and readLastProbe of dblog.cpp.
pub mod Walk
pub mod Exact
pub mod Complete
pub mod Whole
pub mod Results
pub mod Probe
pub mod Probes
pub mod Latest
use wacs.Prelude.{
  ℕ, zero, suc, ◌+◌, ◌-◌, ◌<◌, ◌≡◌, Bool, true, false, not, ◌&&◌, ◌||◌, Option, none, some, List,
  [], ◌∷◌, ℤ, pos, length, take, ltb, ltb_ℤ, ◌==◌, if◌then◌else◌,
}
use wacs.Layout.{
  Bytes, LogKey, LogData, sizeof_log_key, sizeof_log_data, sizeof_last_probe_key, sizeof_time_t,
  log_key_bytes, last_probe_key_bytes, tag_at, sa_at, dt_at, time_at, log_data_at, swap32, to_u32,
  clamp_sa_size, fill_sa,
}
use wacs.ErrorCodes.{errcode_wrong_param, errcode_lmdb_txn_begin, errcode_lmdb_txn_commit}
use wacs.Lmdb.{Lmdb, Op, set_range, Item}
use wacs.Db.Monad.{M, World, txn_begin, txn_commit, cursor_open, cursor_get, pure, ◌>>=◌, ◌>>◌}
use wacs.Db.Loop.{Next, stop, more, cursor_loop}
use wacs.Db.Query.{fails, time_range, sa_differs, OnLog}

-- The filter of a reader: the address and how many bytes of it count, and the range of times.
pub record Query : Type 0 where
  pub sa : Option Bytes
  pub sz : ℕ
  pub start : ℤ
  pub finish : ℤ

unfoldable pub query : Option Bytes → ℤ → ℤ → ℤ → Query
unfolding clamp_sa_size time_range
query sa sa_size start finish = record {
  sa = sa;
  sz = clamp_sa_size sa_size;
  start = (time_range start finish).0;
  finish = (time_range start finish).1;
}

-- The key at which readLog enters the database: the whole key for a whole address, and else the tag
-- and the given bytes of the address. `dt` is the start before the ends are swapped.
unfoldable pub log_seek_key : ℕ → Option Bytes → ℤ → ℤ → Bytes
unfolding clamp_sa_size log_key_bytes fill_sa swap32 to_u32
log_seek_key pad sa sa_size start =
    let sz = clamp_sa_size sa_size in
    take (if sz == 6 then sizeof_log_key else 1 + sz)
      (log_key_bytes pad b'L' (fill_sa sa sz) (swap32 (to_u32 start)))

-- The key and the data that readLog hands to its callback.
unfoldable pub log_key_of : (Bytes → ℕ → ℕ) → Bytes → LogKey
unfolding sa_at dt_at swap32
log_key_of past k = record { sa = sa_at past k; dt = swap32 (dt_at past k) }

module _ {E : Type 0} (past : Bytes → ℕ → ℕ) (q : Query) (on_log : OnLog E) where
  -- The body of readLog's loop.
  unfoldable pub read_log_step : Item → E → Next E
  unfolding log_key_of sa_differs tag_at log_data_at
  read_log_step (k, v) e =
      let key = log_key_of past k in
      let answer = on_log e key (some (log_data_at past v)) in
      if ltb (length v) sizeof_log_data
      then more e
      else if ltb 0 q.sz && sa_differs q.sa q.sz key.sa
      then stop e
      else if ltb_ℤ q.finish (pos key.dt)
      then (if q.sz == 6 then stop e else more e)
      else if ltb_ℤ (pos key.dt) q.start
      then more e
      else if not (tag_at past k == b'L')
      then stop e
      else (if answer.0 then stop answer.1 else more answer.1)

  -- The body of readLastProbe's loop.
  unfoldable pub read_last_probe_step : Item → E → Next E
  unfolding sa_at time_at swap32 sa_differs
  read_last_probe_step (k, v) e =
      let key : LogKey = record { sa = sa_at past k; dt = swap32 (time_at past v) } in
      let answer = on_log e key none in
      if ltb (length k) sizeof_last_probe_key || ltb (length v) sizeof_time_t
      then more e
      else if sa_differs q.sa q.sz key.sa
      then stop e
      else if ltb_ℤ q.finish (pos key.dt) || ltb_ℤ (pos key.dt) q.start
      then more e
      else (if answer.0 then stop answer.1 else more answer.1)

-- The transaction of a reader: enter at a key, run the loop, commit. The result is the code and the
-- callback's environment; `none` is a loop that ran out of fuel.
unfoldable pub read_from :
    {L : Lmdb} {E : Type 0} → ℕ → Bytes → (Item → E → Next E) → E → M L (Option (ℤ × E))
unfolding txn_begin txn_commit cursor_open cursor_get cursor_loop
read_from fuel k step e = do
  r ← txn_begin
  if fails r then pure (some (errcode_lmdb_txn_begin, e)) else do
    c ← cursor_open
    if fails c.0 then (do txn_commit; pure (some (c.0, e))) else do
      g ← cursor_get c.1 (set_range k)
      if fails g.0 then (do txn_commit; pure (some (g.0, e))) else do
        o ← cursor_loop c.1 (λ i x. pure (step i x)) fuel g.1 e
        elim o [
          | none ↦ pure none
          | some e' ↦ do
            r' ← txn_commit
            pure (some (if fails r' then errcode_lmdb_txn_commit else r', e'))
        ]

module _ {L : Lmdb} {E : Type 0} (past : Bytes → ℕ → ℕ) (pad fuel : ℕ) where
  -- readLog; `pad` is the padding byte of its local key. A NULL environment or callback is refused.
  unfoldable pub read_log :
      Option Bytes → ℤ → ℤ → ℤ → Option (OnLog E) → Option E → M L (Option (ℤ × Option E))
  unfolding query log_seek_key read_log_step read_from
  read_log sa sa_size start finish on_log none = pure (some (errcode_wrong_param, none))
  read_log sa sa_size start finish none (some e) = pure (some (errcode_wrong_param, some e))
  read_log sa sa_size start finish (some f) (some e) = do
    o ←
        read_from fuel (log_seek_key pad sa sa_size start)
          (read_log_step past (query sa sa_size start finish) f) e
    pure (elim o [ none ↦ none | some (r, e') ↦ some (r, some e') ])

-- The key at which readLastProbe enters the database: the tag and the given bytes of the address.
unfoldable pub probe_seek_key : Option Bytes → ℤ → Bytes
unfolding clamp_sa_size last_probe_key_bytes fill_sa
probe_seek_key sa sa_size =
    let sz = clamp_sa_size sa_size in
    take (sizeof_last_probe_key - (6 - sz)) (last_probe_key_bytes b'P' (fill_sa sa sz))

module _ {L : Lmdb} {E : Type 0} (past : Bytes → ℕ → ℕ) (fuel : ℕ) where
  -- readLastProbe
  unfoldable pub read_last_probe :
      Option Bytes → ℤ → ℤ → ℤ → Option (OnLog E) → Option E → M L (Option (ℤ × Option E))
  unfolding query probe_seek_key read_last_probe_step read_from
  read_last_probe sa sa_size start finish on_log none = pure (some (errcode_wrong_param, none))
  read_last_probe sa sa_size start finish none (some e) = pure (some (errcode_wrong_param, some e))
  read_last_probe sa sa_size start finish (some f) (some e) = do
    o ←
        read_from fuel (probe_seek_key sa sa_size)
          (read_last_probe_step past (query sa sa_size start finish) f) e
    pure (elim o [ none ↦ none | some (r, e') ↦ some (r, some e') ])
