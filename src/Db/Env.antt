-- ===== src/Db/Env.antt =====
-- openDb, closeDb and processMapFull of dblog.cpp.
use wacs.Prelude.{◌*◌, ℤ, Bool, true, false, not, eq_ℤ, if◌then◌else◌}
use wacs.ErrorCodes.{errcode_lmdb_close, errcode_lmdb_open}
use wacs.Lmdb.{Lmdb, mdb_success}
use wacs.Db.Monad.{
  M, env_create, env_open, env_close, env_info, env_set_mapsize, txn_begin, txn_commit, txn_abort,
  dbi_open, dbi_close, clear_env, pure, ◌>>=◌, ◌>>◌,
}
use wacs.Db.Query.{fails}

module _ {L : Lmdb} where
  -- Create and open the environment, and open the database in a transaction of its own.
  unfoldable pub open_db : M L Bool
  unfolding env_create env_open txn_begin txn_commit dbi_open clear_env
  open_db = do
    rc ← env_create
    if fails rc then (do clear_env; pure false) else do
      rc ← env_open
      if fails rc then (do clear_env; pure false) else do
        rc ← txn_begin
        if fails rc then (do clear_env; pure false) else do
          rc ← dbi_open
          if fails rc
              then (do clear_env; pure false)
              else do rc ← txn_commit; pure (eq_ℤ rc mdb_success)

  unfoldable pub close_db : M L Bool
  unfolding dbi_close env_close
  close_db = do dbi_close; env_close; pure true

  -- After MDB_MAP_FULL: abort the transaction, reopen the environment with a doubled map, and begin
  -- a new transaction. The answer is 0 or an error code; where `openDb` fails it is the code of the
  -- `mdb_env_open` before it.
  unfoldable pub process_map_full : M L ℤ
  unfolding txn_abort env_info close_db env_create clear_env env_set_mapsize env_open env_close
      txn_begin
  process_map_full = do
    txn_abort
    info ← env_info
    if fails info.0 then pure info.0 else do
      closed ← close_db
      if not closed then pure errcode_lmdb_close else do
        r ← env_create
        if fails r then (do clear_env; pure errcode_lmdb_open) else do
          env_set_mapsize (info.1 * 2)
          r ← env_open
          env_close
          opened ← open_db
          if opened then txn_begin else pure r
