-- ===== src/Db/Integrity/Removals.antt =====
-- rmLog and the notification routines keep the database whole, on each branch, whatever the library
-- answers, and on any fuel.
use wacs.Prelude.{
  ℕ, ◌+◌, ℤ, pos, ◌≡◌, Option, none, some, length, take, replicate, not, eq_ℤ, ltb, ltb_ℤ,
  if◌then◌else◌,
}
use wacs.Layout.{Bytes}
use wacs.ErrorCodes.{
  errcode_lmdb_txn_begin, errcode_lmdb_put, errcode_wrong_param, errcode_lmdb_txn_commit,
}
use wacs.Lmdb.{Lmdb, Item, first, set_range, mdb_map_full, mdb_notfound}
use wacs.Lmdb.Contract.{Contract}
use wacs.Db.Monad.{cursor_del, pure, ◌>>=◌, ◌>>◌}
use wacs.Db.Query.{fails}
use wacs.Db.Loop.{stop, more, cursor_loop}
use wacs.Db.Read.{query}
use wacs.Db.Remove.{
  rm_log_decide, rm_seek_key, Action, leave, skip, remove, remove_body, commit_count, rm_log,
}
use wacs.Db.Notification.{
  notification_key, rm_notification_decide, ls_notification_step, OnNotification, put_key,
  do_get_notification, get_notification, put_or_del, put_notification, rm_clamped, rm_notification,
  ls_notification,
}
use wacs.Db.Integrity.Items.{IsStored, put_key-IsStored}
use wacs.Db.Integrity.Calls.{
  Keeps, pure-Keeps, bind-Keeps, then-Keeps, if-Keeps, check-Keeps, elim_option-Keeps, begin-Keeps,
  commit-Keeps, abort-Keeps, put-Keeps, del-Keeps, cursor_open-Keeps, cursor_get-Keeps,
  cursor_del-Keeps, loop-Keeps,
}
use wacs.Db.Integrity.Env.{process_map_full-Keeps, give_up, end_with}

module _ {L : Lmdb} (C : Contract L) where
  remove_body-Keeps :
      (decide : Item → Action) (c : ℕ) (i : Item) (n : ℕ) → Keeps C (remove_body decide c i n)
  unfolding remove_body
  remove_body-Keeps decide c i n = on (decide i)
    where
      on :
          (a : Action)
          → Keeps C (elim a [
            | leave ↦ pure (stop n)
            | skip ↦ pure (more n)
            | remove ↦ do cursor_del c; pure (more (n + 1))
          ])
      on leave = pure-Keeps (stop n)
      on skip = pure-Keeps (more n)
      on remove = then-Keeps (cursor_del-Keeps c) (pure-Keeps (more (n + 1)))

  commit_count-Keeps : (o : Option ℕ) → Keeps C (commit_count o)
  unfolding commit_count
  commit_count-Keeps none = pure-Keeps none
  commit_count-Keeps (some n) =
      bind-Keeps commit-Keeps
        (λ r. pure-Keeps (some (if fails r then errcode_lmdb_txn_commit else pos n)))

  -- The loop that removes, and the commit behind it.
  removing-Keeps :
      (decide : Item → Action) (c fuel : ℕ) (i : Item)
      → Keeps C (cursor_loop c (remove_body decide c) fuel i 0 >>= commit_count)
  removing-Keeps decide c fuel i =
      bind-Keeps (loop-Keeps c (remove_body decide c) (remove_body-Keeps decide c) fuel i 0)
        commit_count-Keeps

  pub rm_log-Keeps :
      (past : Bytes → ℕ → ℕ) (pad fuel : ℕ) (sa : Option Bytes) (sa_size start finish : ℤ)
      → Keeps C (rm_log past pad fuel sa sa_size start finish)
  unfolding rm_log
  rm_log-Keeps past pad fuel sa sa_size start finish =
      check-Keeps begin-Keeps (λ r. pure-Keeps (some errcode_lmdb_txn_begin))
        (λ r. bind-Keeps cursor_open-Keeps (λ c. if-Keeps (fails c.0) (end_with C (some c.0)) (
          bind-Keeps (cursor_get-Keeps c.1 (set_range (rm_seek_key pad sa sa_size start))) (λ g.
            if-Keeps (fails g.0) (end_with C (some g.0))
              (removing-Keeps (rm_log_decide past (query sa sa_size start finish)) c.1 fuel g.1)))))

  rm_clamped-Keeps :
      (past : Bytes → ℕ → ℕ) (fuel : ℕ) (sa : Bytes) (sz : ℕ) → Keeps C (rm_clamped past fuel sa sz)
  unfolding rm_clamped
  rm_clamped-Keeps past fuel sa sz =
      check-Keeps begin-Keeps (λ r. pure-Keeps (some errcode_lmdb_txn_begin))
        (λ r. bind-Keeps cursor_open-Keeps (λ c. if-Keeps (fails c.0) (end_with C (some c.0)) (
          bind-Keeps (cursor_get-Keeps c.1 (set_range (notification_key (take sz sa)))) (λ g.
            if-Keeps (fails g.0) (give_up C (some (if eq_ℤ g.0 mdb_notfound then pos 0 else g.0)))
              (removing-Keeps (rm_notification_decide past sa sz) c.1 fuel g.1)))))

  pub rm_notification-Keeps :
      (past : Bytes → ℕ → ℕ) (fuel : ℕ) (sa : Bytes) (sa_size : ℕ)
      → Keeps C (rm_notification past fuel sa sa_size)
  unfolding rm_notification
  rm_notification-Keeps past fuel sa sa_size =
      rm_clamped-Keeps past fuel sa (if ltb sa_size 6 then sa_size else 6)

  put_or_del-Keeps : (k value : Bytes) → IsStored (k, value) → Keeps C (put_or_del k value)
  unfolding put_or_del
  put_or_del-Keeps k value p = if-Keeps (ltb 0 (length value)) (put-Keeps k value p) (del-Keeps k)

  pub put_notification-Keeps :
      (over sa value : Bytes) → length sa ≡ 6 → Keeps C (put_notification over sa value)
  unfolding put_notification
  put_notification-Keeps over sa value six =
      let stores = put_or_del-Keeps (put_key over sa) value (put_key-IsStored over sa value six) in
      check-Keeps begin-Keeps (λ r. pure-Keeps errcode_lmdb_txn_begin)
        (λ r. bind-Keeps stores (λ r.
          bind-Keeps
            (if-Keeps (not (eq_ℤ r mdb_map_full)) (pure-Keeps r)
              (check-Keeps (process_map_full-Keeps C) (λ r. pure-Keeps r) (λ r. stores)))
            (λ r. if-Keeps (fails r) (give_up C errcode_lmdb_put) (
              bind-Keeps commit-Keeps
                (λ r. pure-Keeps (if fails r then errcode_lmdb_txn_commit else r))))))

  do_get_notification-Keeps : (retval sa : Bytes) → Keeps C (do_get_notification retval sa)
  unfolding do_get_notification
  do_get_notification-Keeps retval sa = bind-Keeps cursor_open-Keeps (λ c.
      if-Keeps (fails c.0) (pure-Keeps (c.0, retval)) (
        bind-Keeps (cursor_get-Keeps c.1 first) (λ g. pure-Keeps (
          if fails g.0
          then (g.0, retval)
          else (pos 0, if ltb 0 (length g.1.1) then g.1.1 else retval)))))

  pub get_notification-Keeps : (retval sa : Bytes) → Keeps C (get_notification retval sa)
  unfolding get_notification
  get_notification-Keeps retval sa =
      check-Keeps begin-Keeps (λ r. pure-Keeps (errcode_lmdb_txn_begin, retval))
        (λ r. bind-Keeps (do_get_notification-Keeps retval sa) (λ got.
          bind-Keeps (if-Keeps (ltb_ℤ got.0 (pos 0)) abort-Keeps commit-Keeps)
            (λ r. pure-Keeps (if fails r then errcode_lmdb_txn_commit else r, got.1))))

  pub ls_notification-Keeps :
      {E : Type 0} (past : Bytes → ℕ → ℕ) (fuel : ℕ) (f : Option (OnNotification E)) (e : E)
      → Keeps C (ls_notification past fuel f e)
  unfolding ls_notification
  ls_notification-Keeps past fuel none e = pure-Keeps (some (errcode_wrong_param, e))
  ls_notification-Keeps past fuel (some f) e =
      check-Keeps begin-Keeps (λ r. pure-Keeps (some (errcode_lmdb_txn_begin, e)))
        (λ r. bind-Keeps cursor_open-Keeps (λ c. if-Keeps (fails c.0) (end_with C (some (c.0, e))) (
          bind-Keeps (cursor_get-Keeps c.1 (set_range (take 6 (notification_key (replicate 6 0)))))
            (λ g. if-Keeps (fails g.0) (give_up C (some (g.0, e))) (
              bind-Keeps
                (loop-Keeps c.1 (λ i x. pure (ls_notification_step past f i x))
                  (λ i x. pure-Keeps (ls_notification_step past f i x)) fuel g.1 e)
                (λ o. elim_option-Keeps o (pure-Keeps none) (λ e'. bind-Keeps commit-Keeps (λ r.
                  pure-Keeps (some (if fails r then errcode_lmdb_txn_commit else r, e'))))))))))
