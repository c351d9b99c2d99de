-- ===== src/Db/Remove.antt =====
-- rmLog of dblog.cpp, and the loop with mdb_cursor_del that it shares with rmNotification.
pub mod Loop
pub mod Outcome
pub mod Results
pub mod Whole
pub mod Enter
pub mod Matching
use wacs.Prelude.{
  ℕ, zero, suc, ◌+◌, Bool, true, false, not, ◌||◌, Option, none, some, List, [], ◌∷◌, ℤ, pos,
  length, ltb, ltb_ℤ, ◌==◌, if◌then◌else◌,
}
use wacs.Layout.{
  Bytes, sizeof_log_key, sizeof_log_data, log_key_bytes, tag_at, swap32, to_u32, clamp_sa_size,
  fill_sa,
}
use wacs.ErrorCodes.{errcode_lmdb_txn_begin, errcode_lmdb_txn_commit}
use wacs.Lmdb.{Lmdb, set_range, Item}
use wacs.Db.Monad.{M, txn_begin, txn_commit, cursor_open, cursor_get, cursor_del, pure, ◌>>=◌, ◌>>◌}
use wacs.Db.Loop.{Next, stop, more, cursor_loop}
use wacs.Db.Query.{fails, sa_differs}
use wacs.Db.Read.{Query, query, log_key_of}

-- What a body does with the item under the cursor: `break`, `continue`, or remove and count it.
pub data Action : Type 0 where
  leave skip remove : Action

module _ {L : Lmdb} where
  -- A body that calls mdb_cursor_del, whose result the source ignores, and counts.
  unfoldable pub remove_body : (Item → Action) → ℕ → Item → ℕ → M L (Next ℕ)
  remove_body decide c i count = elim (decide i) [
    | leave ↦ pure (stop count)
    | skip ↦ pure (more count)
    | remove ↦ do cursor_del c; pure (more (count + 1))
  ]

  -- The commit behind the loop, and the count as the answer.
  unfoldable pub commit_count : Option ℕ → M L (Option ℤ)
  commit_count none = pure none
  commit_count (some count) = do
    r ← txn_commit
    pure (some (if fails r then errcode_lmdb_txn_commit else pos count))

-- The body of rmLog's loop.
unfoldable pub rm_log_decide : (Bytes → ℕ → ℕ) → Query → Item → Action
unfolding log_key_of sa_differs tag_at
rm_log_decide past q (k, v) =
    let key = log_key_of past k in
    if ltb (length v) sizeof_log_data || ltb (length k) sizeof_log_key
    then skip
    else if sa_differs q.sa q.sz key.sa
    then leave
    else if ltb_ℤ q.finish (pos key.dt)
    then (if q.sz == 6 then leave else skip)
    else if ltb_ℤ (pos key.dt) q.start
    then skip
    else if not (tag_at past k == b'L')
    then leave
    else remove

-- The key at which rmLog enters the database: a whole `LogKey`, also for a part of an address.
unfoldable pub rm_seek_key : ℕ → Option Bytes → ℤ → ℤ → Bytes
unfolding clamp_sa_size log_key_bytes fill_sa swap32 to_u32
rm_seek_key pad sa sa_size start =
    log_key_bytes pad b'L' (fill_sa sa (clamp_sa_size sa_size)) (swap32 (to_u32 start))

module _ {L : Lmdb} (past : Bytes → ℕ → ℕ) (pad fuel : ℕ) where
  -- rmLog; `none` is a loop that ran out of fuel.
  unfoldable pub rm_log : Option Bytes → ℤ → ℤ → ℤ → M L (Option ℤ)
  rm_log sa sa_size start finish = do
    r ← txn_begin
    if fails r then pure (some errcode_lmdb_txn_begin) else do
      c ← cursor_open
      if fails c.0 then (do txn_commit; pure (some c.0)) else do
        g ← cursor_get c.1 (set_range (rm_seek_key pad sa sa_size start))
        if fails g.0 then (do txn_commit; pure (some g.0)) else do
          o ←
              cursor_loop c.1 (remove_body (rm_log_decide past (query sa sa_size start finish)) c.1)
                fuel g.1 0
          commit_count o
