-- ===== src/Db/Read/Walk.antt =====
-- The readers of dblog.cpp as list functions: what a reader hands to its callback is a list of
-- records that depends on the stored items alone.
use mathlib.Core.Path.{ap₂}
use wacs.Prelude.{
  ℕ, ◌<◌, ◌≤◌, ◌≡◌, refl, ap, ◌∙◌, sym, false, not, ◌&&◌, ◌||◌, Option, none, some, List, [], ◌∷◌,
  ◌++◌, ℤ, pos, arith, length, ltb, ltb_ℤ, ◌==◌, if◌then◌else◌, Bool-cases, inl, inr,
}
use wacs.Layout.{
  Bytes, LogKey, LogData, sizeof_log_data, sizeof_last_probe_key, sizeof_time_t, tag_at, sa_at,
  time_at, log_data_at, swap32,
}
use wacs.ErrorCodes.{errcode_lmdb_txn_begin, errcode_lmdb_txn_commit}
use wacs.Lmdb.{Lmdb, set_range, Item, mdb_success}
use wacs.Lmdb.Shelf.{Shelf, here_list, at_start, seek, key_lt, items-at_start, committed-at_start}
use wacs.Lmdb.Contract.{Contract, found, go_to}
use wacs.Db.Monad.{World, txn_begin, txn_commit, cursor_open, cursor_get, pure}
use wacs.Db.Loop.{Next, cursor_loop, walk, cursor_loop-eq-walk}
use wacs.Db.Query.{fails, sa_differs, OnLog, feed}
use wacs.Db.Transaction.{fails-eq-false}
use wacs.Db.Read.{Query, log_key_of, read_log_step, read_last_probe_step, read_from}

-- The items from a key on.
unfoldable pub from_key : Bytes → List Item → List Item
from_key k [] = []
from_key k ((j, v) ∷ is) = let rest = from_key k is in if key_lt j k then rest else (j, v) ∷ is

seek-from_key :
    (k : Bytes) (c is : List Item)
    → here_list (seek k c is).here ++ (seek k c is).ahead ≡ from_key k is
unfolding seek from_key here_list
seek-from_key k c [] = refl
seek-from_key k c ((j, v) ∷ is) = ground (arith, seek-from_key k c is)

pub length-from_key : (k : Bytes) (is : List Item) → length (from_key k is) ≤ length is
unfolding from_key
length-from_key k [] = omega arith
length-from_key k ((j, v) ∷ is) = ground (arith, length-from_key k is)

here_list-some :
    (o : Option Item) (i : Item) (as' is : List Item)
    → o ≡ some i
    → here_list o ++ as' ≡ is
    → i ∷ as' ≡ is
unfolding here_list
here_list-some o i as' is p h = ground arith

-- What readLog makes of one item with the given size of its value, key, tag and data, where `rest`
-- is what it delivers from the next item on.
unfoldable pub visible_next :
    Query
    → ℕ
    → LogKey
    → ℕ
    → LogData
    → List (LogKey × Option LogData)
    → List (LogKey × Option LogData)
unfolding sa_differs
visible_next q size key tag d rest =
    if ltb size sizeof_log_data
    then rest
    else if ltb 0 q.sz && sa_differs q.sa q.sz key.sa
    then []
    else if ltb_ℤ q.finish (pos key.dt)
    then (if q.sz == 6 then [] else rest)
    else if ltb_ℤ (pos key.dt) q.start
    then rest
    else if not (tag == b'L')
    then []
    else (key, some d) ∷ rest

module _ (past : Bytes → ℕ → ℕ) (q : Query) where
  -- The records that readLog would hand to a callback that never stops.
  unfoldable pub visible_logs : List Item → List (LogKey × Option LogData)
  unfolding visible_next
  visible_logs [] = []
  visible_logs ((k, v) ∷ is) =
      visible_next q (length v) (log_key_of past k) (tag_at past k) (log_data_at past v)
        (visible_logs is)

  -- The records that readLastProbe would hand to a callback that never stops.
  unfoldable pub visible_probes : List Item → List (LogKey × Option LogData)
  unfolding sa_differs sa_at time_at swap32
  visible_probes [] = []
  visible_probes ((k, v) ∷ is) =
      let key : LogKey = record { sa = sa_at past k; dt = swap32 (time_at past v) } in
      let rest = visible_probes is in
      if ltb (length k) sizeof_last_probe_key || ltb (length v) sizeof_time_t
      then rest
      else if sa_differs q.sa q.sz key.sa
      then []
      else if ltb_ℤ q.finish (pos key.dt) || ltb_ℤ (pos key.dt) q.start
      then rest
      else (key, none) ∷ rest

  pub walk-read_log_step :
      {E : Type 0} (f : OnLog E) (is : List Item) (e : E)
      → walk (read_log_step past q f) is e ≡ feed f (visible_logs is) e
  unfolding walk feed visible_logs read_log_step
  walk-read_log_step f [] e = refl
  walk-read_log_step f ((k, v) ∷ is) e = ground (
    arith,
    walk-read_log_step f is e,
    walk-read_log_step f is (f e (log_key_of past k) (some (log_data_at past v))).1,
  )

  pub walk-read_last_probe_step :
      {E : Type 0} (f : OnLog E) (is : List Item) (e : E)
      → walk (read_last_probe_step past q f) is e ≡ feed f (visible_probes is) e
  unfolding walk feed visible_probes read_last_probe_step
  walk-read_last_probe_step f [] e = refl
  walk-read_last_probe_step f ((k, v) ∷ is) e = ground (
    arith,
    walk-read_last_probe_step f is e,
    walk-read_last_probe_step f is
        (f e (record { sa = sa_at past k; dt = swap32 (time_at past v) }) none).1,
  )

-- The code of a reader whose loop has ended.
abbrev commit_code : ℤ → ℤ
commit_code r = if fails r then errcode_lmdb_txn_commit else r

found-of_success : (r : ℤ) (i : Item) → fails r ≡ false → found r i ≡ some i
found-of_success r i h = ground arith

module _ {L : Lmdb} (C : Contract L) where
  pub begin_lem :
      (w : World L)
      → fails (txn_begin w).0 ≡ false
      → C.view (txn_begin w).1.lib ≡ at_start (C.view w.lib).committed (C.view w.lib).committed
  unfolding txn_begin
  begin_lem w h = C.begin_view w.db.env w.lib (fails-eq-false (L.txn_begin w.db.env w.lib).0 h)

  -- Where the cursor stands after MDB_SET_RANGE at the start of a transaction.
  pub set_range_view :
      (c : ℕ) (k : Bytes) (cm : List Item) (s : L.State)
      → C.view s ≡ at_start cm cm
      → C.view (L.cursor_get c (set_range k) s).2 ≡ seek k cm cm
  unfolding go_to
  set_range_view c k cm s h =
      C.get_view c (set_range k) s
      ∙ ap (go_to (set_range k)) h
      ∙ ap₂ (λ a b. seek k a b) (committed-at_start cm cm) (items-at_start cm cm)

  pub set_range_found :
      (c : ℕ) (k : Bytes) (cm : List Item) (s : L.State)
      → C.view s ≡ at_start cm cm
      → fails (L.cursor_get c (set_range k) s).0 ≡ false
      → (seek k cm cm).here ≡ some (L.cursor_get c (set_range k) s).1
  set_range_found c k cm s h ok =
      sym (
        ap (λ (v : Shelf). v.here) (sym (C.get_view c (set_range k) s) ∙ set_range_view c k cm s h))
      ∙ sym (C.get_found c (set_range k) s)
      ∙ found-of_success (L.cursor_get c (set_range k) s).0 (L.cursor_get c (set_range k) s).1 ok

module _ {L : Lmdb} (C : Contract L) {E : Type 0} (fuel : ℕ) (k : Bytes)
    (step : Item → E → Next E) where
  pub loop_after_set_range :
      (c : ℕ) (cm : List Item) (e : E) (s : World L)
      → C.view s.lib ≡ at_start cm cm
      → fails (cursor_get c (set_range k) s).0.0 ≡ false
      → length cm < fuel
      → (cursor_loop c
          (λ i x. pure (step i x))
          fuel
          (cursor_get c (set_range k) s).0.1
          e
          (cursor_get c (set_range k) s).1).0
        ≡ some (walk step (from_key k cm) e)
  unfolding cursor_get
  loop_after_set_range c cm e s v ok lt =
      let here = set_range_found C c k cm s.lib v ok in
      let i = (L.cursor_get c (set_range k) s.lib).1 in
      let split =
        here_list-some (seek k cm cm).here i (seek k cm cm).ahead (from_key k cm) here
          (seek-from_key k cm cm) in
      cursor_loop-eq-walk C c (λ j x. pure (step j x)) step (λ j x u. refl) (λ j x u. refl) fuel
        (seek k cm cm).ahead i e (cursor_get c (set_range k) s).1
        (ap (λ (u : Shelf). u.ahead) (set_range_view C c k cm s.lib v))
        (omega (arith, ap length split, length-from_key k cm))
      ∙ ap (λ l. some (walk step l e)) split

  -- A reader ends, and with code 0 it has walked the committed items from its key on.
  pub read_from-eq-walk :
      (e : E) (w : World L)
      → length (C.view w.lib).committed < fuel
      → (r : ℤ) × (e' : E) × ((read_from fuel k step e w).0 ≡ some (r, e'))
        × (r ≡ mdb_success → e' ≡ walk step (from_key k (C.view w.lib).committed) e)
  unfolding read_from
  read_from-eq-walk e w lt = elim (Bool-cases (fails b.0)) [
    | inl p ↦ (errcode_lmdb_txn_begin, e, ground (arith, p), λ z. cc)
    | inr p ↦ elim (Bool-cases (fails c.0.0)) [
      | inl q ↦ (c.0.0, e, ground (arith, p, q), λ z. cc (z, q))
      | inr q ↦ elim (Bool-cases (fails g.0.0)) [
        | inl o ↦ (g.0.0, e, ground (arith, p, q, o), λ z. cc (z, o))
        | inr o ↦ (
          commit_code
              (txn_commit (cursor_loop c.0.1 (λ j x. pure (step j x)) fuel g.0.1 e g.1).1).0,
          walk step (from_key k (C.view w.lib).committed) e,
          ground (
            arith,
            p,
            q,
            o,
            loop_after_set_range c.0.1 (C.view w.lib).committed e c.1
                (C.open_view b.1.db.txn b.1.db.dbi b.1.lib ∙ begin_lem C w p) o lt,
          ),
          λ _. refl,
        )
      ]
    ]
  ]
    where
      b : ℤ × World L
      b = txn_begin w

      c : (ℤ × ℕ) × World L
      c = cursor_open b.1

      g : (ℤ × Item) × World L
      g = cursor_get c.0.1 (set_range k) c.1
