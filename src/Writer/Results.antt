-- ===== src/Writer/Results.antt =====
-- What the writer's loop keeps, and that it ends.
use wacs.Prelude.{
  ◌⊎◌, ℕ, ◌≡◌, refl, true, false, not, ◌||◌, Bool, ℤ, pos, Option, none, some, List, arith,
  Bool-cases, inl, inr, length, pos_part, if◌then◌else◌, eq_ℤ,
}
use wacs.Layout.{Bytes, le_bytes, sizeof_log_entry}
use wacs.ErrorCodes.{errcode_nn_bind, errcode_nn_shutdown, errcode_lmdb_open}
use wacs.Lmdb.{Lmdb}
use wacs.Lmdb.Contract.{Contract}
use wacs.Db.Monad.{World}
use wacs.Db.Env.{open_db}
use wacs.Db.Integrity.Items.{Holds}
use wacs.Db.Integrity.Env.{open_db-Keeps, close_db-Keeps}
use wacs.Db.Integrity.Operations.{put_log-Keeps}
use wacs.Mq.{Nn, negative, af_sp, nn_bus, nn_sol_socket, nn_rcvtimeo}
use wacs.Mq.Sender.{log_entry_at}
use wacs.Writer.Loop.{any, loop_until-ends}
use wacs.Writer.{Writer, Round, stop, reload, snmp_initialize, turn, write_loop, finish, fresh, run}

-- stop and reload are one.
pub reload-stop : {L : Lmdb} {N : Nn} (c : Option (Writer L N)) → reload c ≡ stop c
unfolding reload stop
reload-stop none = refl
reload-stop (some c) = refl

abbrev pub any_signalled : List Round → Bool
any_signalled = any (λ t. t.signalled)

six_at : (past : Bytes → ℕ → ℕ) (b : Bytes) → length (log_entry_at past b).sa ≡ 6
unfolding log_entry_at
six_at past b = refl

module _ {L : Lmdb} {N : Nn} (accept_socket : ℤ) where
  turn-stops :
      (t : Round) (c : Writer L N)
      → (c.stop_request || t.signalled) ≡ true
      → (turn accept_socket t c).stop_request ≡ true
  unfolding turn
  turn-stops t c h = ground (arith, h)

  module _ (C : Contract L) where
    turn-Holds :
        (t : Round) (c : Writer L N)
        → Holds (C.view c.world.lib)
        → Holds (C.view (turn accept_socket t c).world.lib)
    unfolding turn
    turn-Holds t c h =
        let got = N.recv accept_socket (some sizeof_log_entry) c.nn in
        let e = log_entry_at t.past got.1 in
        ground (
          arith,
          h,
          (put_log-Keeps C t.key_pad t.data_pad t.now e (pos_part got.0)
                (six_at t.past got.1)).keeps
              c.world h,
        )

    write_loop-ends :
        (ts : List Round) (c : Writer L N)
        → any_signalled ts ≡ true
        → Holds (C.view c.world.lib)
        → (c' : Writer L N) × (write_loop accept_socket ts c ≡ some c')
          × Holds (C.view c'.world.lib)
    unfolding write_loop
    write_loop-ends =
        loop_until-ends (λ c. c.stop_request) (turn accept_socket) (λ t. t.signalled)
          (λ c. Holds (C.view c.world.lib)) turn-stops turn-Holds

-- What run may answer.
abbrev pub IsRunCode : ℤ → Type 0
IsRunCode r =
    (r ≡ pos 0) ⊎ ((r ≡ errcode_nn_shutdown) ⊎ ((r ≡ errcode_nn_bind) ⊎ (r ≡ errcode_lmdb_open)))

finish_code : (r : ℤ) → IsRunCode (if not (eq_ℤ r (pos 0)) then errcode_nn_shutdown else r)
finish_code r = ground arith

module _ {L : Lmdb} {N : Nn} (C : Contract L) where
  finish-IsRunCode : (h e : ℤ) (c : Writer L N) → IsRunCode (finish h e c).0
  unfolding finish
  finish-IsRunCode h e c = finish_code (N.shutdown h e c.nn).0

  finish-Holds :
      (h e : ℤ) (c : Writer L N)
      → Holds (C.view c.world.lib)
      → Holds (C.view (finish h e c).1.world.lib)
  unfolding finish
  finish-Holds h e c k = (close_db-Keeps C).keeps c.world k

  -- Where a signal calls stop or reload in some round, run ends: with 0 or the code of a failed bind, of
  -- a database that does not open, or of a failed shutdown, and whatever was received, and whatever
  -- the libraries answered, a database that was in order is in order.
  pub run-ends :
      (now : ℕ) (rounds : List Round) (config : Writer L N)
      → any_signalled rounds ≡ true
      → Holds (C.view config.world.lib)
      → (r : ℤ) × (c : Writer L N) × (run now rounds config ≡ some (r, c))
        × IsRunCode r
        × Holds (C.view c.world.lib)
  unfolding run snmp_initialize fresh
  run-ends now rounds config h k = elim (Bool-cases (negative eid.0)) [
    | inl p ↦ (errcode_nn_bind, record c { nn = eid.1 }, ground (arith, p), inr (inr (inl refl)), k)
    | inr p ↦ elim (Bool-cases (negative o.0)) [
      | inl q ↦
          (errcode_nn_bind, record c { nn = o.1 }, ground (arith, p, q), inr (inr (inl refl)), k)
      | inr q ↦ elim (Bool-cases opened.0) [
        | inr r ↦ (errcode_lmdb_open, c2, ground (arith, p, q, r), inr (inr (inr refl)), k2)
        | inl r ↦
            let (c', e, k') = write_loop-ends h0.0 C rounds c2 h k2 in
            (
              (finish h0.0 eid.0 c').0,
              (finish h0.0 eid.0 c').1,
              ground (arith, p, q, r, e),
              finish-IsRunCode h0.0 eid.0 c',
              finish-Holds h0.0 eid.0 c' k',
            )
      ]
    ]
  ]
    where
      c : Writer L N
      c = record (snmp_initialize now config) { stop_request = false }

      h0 : ℤ × N.State
      h0 = N.socket af_sp nn_bus c.nn

      eid : ℤ × N.State
      eid = N.bind h0.0 c.message_url h0.1

      o : ℤ × N.State
      o = N.setsockopt h0.0 nn_sol_socket nn_rcvtimeo (le_bytes 4 1000) eid.1

      opened : Bool × World L
      opened = open_db (fresh c)

      c2 : Writer L N
      c2 = record c { nn = o.1; world = opened.1 }

      k2 : Holds (C.view opened.1.lib)
      k2 = (open_db-Keeps C).keeps (fresh c) k
