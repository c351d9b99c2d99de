-- ===== src/Db/Notification.antt =====
-- The notification routines of dblog.cpp, as they are built without USE_LMDB.
pub mod Results
pub mod Prefix
pub mod Store
use wacs.Prelude.{
  ℕ, zero, suc, ◌+◌, Bool, true, false, not, ◌||◌, Option, none, some, List, [], ◌∷◌, ◌++◌, ℤ, pos,
  length, take, replicate, ltb, ltb_ℤ, eq_ℤ, ◌==◌, if◌then◌else◌,
}
use wacs.Layout.{Bytes, last_probe_key_bytes, tag_at, sa_at}
use wacs.ErrorCodes.{
  errcode_wrong_param, errcode_lmdb_txn_begin, errcode_lmdb_txn_commit, errcode_lmdb_put,
}
use wacs.Lmdb.{Lmdb, set_range, first, Item, mdb_map_full, mdb_notfound}
use wacs.Db.Monad.{
  M, txn_begin, txn_commit, txn_abort, put, del, cursor_open, cursor_get, pure, ◌>>=◌, ◌>>◌,
}
use wacs.Db.Env.{process_map_full}
use wacs.Db.Loop.{Next, stop, more, cursor_loop}
use wacs.Db.Query.{fails, bytes_eq}
use wacs.Db.Remove.{Action, leave, skip, remove, remove_body, commit_count}

-- The key of a notification.
unfoldable pub notification_key : Bytes → Bytes
unfolding last_probe_key_bytes
notification_key sa = last_probe_key_bytes b'T' sa

-- The key that putNotification hands to the library: its size is that of a `LogKey`, so that
-- `over`, the nine bytes that memory holds behind the `LastProbeKey`, belongs to it.
unfoldable pub put_key : Bytes → Bytes → Bytes
unfolding notification_key
put_key over sa = notification_key sa ++ over

-- `OnNotification`: the answer true stops the list.
abbrev pub OnNotification : Type 0 → Type 0
OnNotification E = E → Bytes → Bytes → Bool × E

-- The body of rmNotification's loop.
unfoldable pub rm_notification_decide : (Bytes → ℕ → ℕ) → Bytes → ℕ → Item → Action
unfolding tag_at sa_at bytes_eq
rm_notification_decide past sa sz (k, v) =
    if ltb (length k) 6
    then leave
    else if not (tag_at past k == b'T')
    then leave
    else if not (bytes_eq (take sz (sa_at past k)) (take sz sa))
    then leave
    else remove

-- The body of lsNotification's loop.
unfoldable pub ls_notification_step :
    {E : Type 0} → (Bytes → ℕ → ℕ) → OnNotification E → Item → E → Next E
unfolding sa_at
ls_notification_step past f (k, v) e =
    let answer = f e (sa_at past k) v in
    if ltb (length v) 1 || ltb (length k) 6
    then more e
    else (if answer.0 then stop answer.1 else more answer.1)

module _ {L : Lmdb} where
  -- doGetNotification: the address only goes into a key that MDB_FIRST does not read.
  unfoldable pub do_get_notification : Bytes → Bytes → M L (ℤ × Bytes)
  do_get_notification retval sa = do
    c ← cursor_open
    if fails c.0 then pure (c.0, retval) else do
      g ← cursor_get c.1 first
      pure (
          if fails g.0
          then (g.0, retval)
          else (pos 0, if ltb 0 (length g.1.1) then g.1.1 else retval))

  -- getNotification: the code, and `retval` as it leaves it.
  unfoldable pub get_notification : Bytes → Bytes → M L (ℤ × Bytes)
  unfolding do_get_notification
  get_notification retval sa = do
    r ← txn_begin
    if fails r then pure (errcode_lmdb_txn_begin, retval) else do
      got ← do_get_notification retval sa
      r ← if ltb_ℤ got.0 (pos 0) then txn_abort else txn_commit
      pure ((if fails r then errcode_lmdb_txn_commit else r), got.1)

  -- mdb_put of a value, mdb_del for an empty one.
  unfoldable pub put_or_del : Bytes → Bytes → M L ℤ
  put_or_del k value = if ltb 0 (length value) then put k value else del k

  -- putNotification
  unfoldable pub put_notification : Bytes → Bytes → Bytes → M L ℤ
  put_notification over sa value = do
    r ← txn_begin
    if fails r then pure errcode_lmdb_txn_begin else do
      r ← put_or_del (put_key over sa) value
      r ← if not (eq_ℤ r mdb_map_full) then pure r else do
        r ← process_map_full
        if fails r then pure r else put_or_del (put_key over sa) value
      if fails r
          then (do txn_abort; pure errcode_lmdb_put)
          else do r ← txn_commit; pure (if fails r then errcode_lmdb_txn_commit else r)

  -- rmNotification for at most six bytes.
  unfoldable pub rm_clamped : (Bytes → ℕ → ℕ) → ℕ → Bytes → ℕ → M L (Option ℤ)
  rm_clamped past fuel sa sz = do
    r ← txn_begin
    if fails r then pure (some errcode_lmdb_txn_begin) else do
      c ← cursor_open
      if fails c.0 then (do txn_commit; pure (some c.0)) else do
        g ← cursor_get c.1 (set_range (notification_key (take sz sa)))
        if fails g.0
            then (do txn_abort; pure (some (if eq_ℤ g.0 mdb_notfound then pos 0 else g.0)))
            else do
              o ← cursor_loop c.1 (remove_body (rm_notification_decide past sa sz) c.1) fuel g.1 0
              commit_count o

  -- rmNotification; a negative `sa_size` is not modelled.
  unfoldable pub rm_notification : (Bytes → ℕ → ℕ) → ℕ → Bytes → ℕ → M L (Option ℤ)
  unfolding rm_clamped
  rm_notification past fuel sa sa_size =
      rm_clamped past fuel sa (if ltb sa_size 6 then sa_size else 6)

module _ {L : Lmdb} {E : Type 0} (past : Bytes → ℕ → ℕ) (fuel : ℕ) where
  -- lsNotification: the search key is the tag and five bytes of zero.
  unfoldable pub ls_notification : Option (OnNotification E) → E → M L (Option (ℤ × E))
  unfolding ls_notification_step
  ls_notification none e = pure (some (errcode_wrong_param, e))
  ls_notification (some f) e = do
    r ← txn_begin
    if fails r then pure (some (errcode_lmdb_txn_begin, e)) else do
      c ← cursor_open
      if fails c.0 then (do txn_commit; pure (some (c.0, e))) else do
        g ← cursor_get c.1 (set_range (take 6 (notification_key (replicate 6 0))))
        if fails g.0 then (do txn_abort; pure (some (g.0, e))) else do
          o ← cursor_loop c.1 (λ i x. pure (ls_notification_step past f i x)) fuel g.1 e
          elim o [
            | none ↦ pure none
            | some e' ↦ do
              r' ← txn_commit
              pure (some (if fails r' then errcode_lmdb_txn_commit else r', e'))
          ]
