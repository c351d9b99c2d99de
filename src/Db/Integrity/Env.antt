-- ===== src/Db/Integrity/Env.antt =====
-- openDb, closeDb and processMapFull keep the database whole, and the ways to leave a transaction do.
use wacs.Prelude.{◌*◌, ℤ, not, eq_ℤ, true, false, if◌then◌else◌}
use wacs.ErrorCodes.{errcode_lmdb_close, errcode_lmdb_open}
use wacs.Lmdb.{Lmdb, mdb_success, mdb_map_full}
use wacs.Lmdb.Contract.{Contract}
use wacs.Db.Monad.{M, World, clear_env, txn_abort, txn_commit, pure, ◌>>=◌, ◌>>◌}
use wacs.Db.Env.{open_db, close_db, process_map_full}
use wacs.Db.Query.{fails}
use wacs.Db.Integrity.Calls.{
  Keeps, pure-Keeps, bind-Keeps, then-Keeps, if-Keeps, check-Keeps, create-Keeps, env_open-Keeps,
  close-Keeps, info-Keeps, mapsize-Keeps, clear-Keeps, dbi_open-Keeps, dbi_close-Keeps, begin-Keeps,
  commit-Keeps, abort-Keeps,
}

module _ {L : Lmdb} (C : Contract L) where
  refuse : Keeps C (clear_env >> pure {S = World L} false)
  refuse = then-Keeps clear-Keeps (pure-Keeps false)

  pub open_db-Keeps : Keeps C open_db
  unfolding open_db
  open_db-Keeps =
      check-Keeps create-Keeps (λ r. refuse)
        (λ r.
          check-Keeps env_open-Keeps (λ r. refuse)
            (λ r.
              check-Keeps begin-Keeps (λ r. refuse)
                (λ r.
                  check-Keeps dbi_open-Keeps (λ r. refuse)
                    (λ r. bind-Keeps commit-Keeps (λ r. pure-Keeps (eq_ℤ r mdb_success))))))

  pub close_db-Keeps : Keeps C close_db
  unfolding close_db
  close_db-Keeps = then-Keeps dbi_close-Keeps (then-Keeps close-Keeps (pure-Keeps true))

  pub process_map_full-Keeps : Keeps C process_map_full
  unfolding process_map_full
  process_map_full-Keeps = then-Keeps abort-Keeps (
      bind-Keeps info-Keeps (λ info. if-Keeps (fails info.0) (pure-Keeps info.0) (
        bind-Keeps close_db-Keeps (λ closed. if-Keeps (not closed) (pure-Keeps errcode_lmdb_close) (
          check-Keeps create-Keeps (λ r. then-Keeps clear-Keeps (pure-Keeps errcode_lmdb_open))
            (λ r. then-Keeps (mapsize-Keeps (info.1 * 2)) (
              bind-Keeps env_open-Keeps (λ r. then-Keeps close-Keeps (
                bind-Keeps open_db-Keeps
                  (λ opened. if-Keeps opened begin-Keeps (pure-Keeps r)))))))))))

  -- An action that is tried once more after the map has been enlarged.
  pub grow-Keeps :
      {m : M L ℤ}
      → Keeps C m
      → Keeps C (
          m >>= (λ r.
            if not (eq_ℤ r mdb_map_full)
            then pure r
            else process_map_full >>= (λ r. if fails r then pure r else m)))
  grow-Keeps k = bind-Keeps k (λ r.
      if-Keeps (not (eq_ℤ r mdb_map_full)) (pure-Keeps r)
        (check-Keeps process_map_full-Keeps (λ r. pure-Keeps r) (λ r. k)))

  pub give_up : {A : Type 0} (a : A) → Keeps C (txn_abort >> pure {S = World L} a)
  give_up a = then-Keeps abort-Keeps (pure-Keeps a)

  -- What a reader does when a call fails.
  pub end_with : {A : Type 0} (a : A) → Keeps C (txn_commit >> pure {S = World L} a)
  end_with a = then-Keeps commit-Keeps (pure-Keeps a)
