-- ===== src/Db/Read/Exact.antt =====
-- readLog against an independent reading of its filter: what it delivers, and all that it
-- delivers, on a database whose items are in key order.
use mathlib.Core.Path.{ap₂}
use wacs.Prelude.{
  ◌⊎◌, ◌≢◌, eq_ℤ, eq_ℤ_iff, ℕ, ◌<◌, ◌≡◌, refl, ◌∙◌, false, not, ◌&&◌, Option, some, List, [], ◌∷◌,
  ℤ, pos, ◌≤ℤ◌, arith, length, ltb_ℤ, if◌then◌else◌, Bool-cases, inl, inr, All,
}
use wacs.Layout.{Bytes, LogKey, LogData, tag_at}
use wacs.Lmdb.{Lmdb, Item, mdb_success}
use wacs.Lmdb.Shelf.{key_lt}
use wacs.Lmdb.Contract.{Contract}
use wacs.Db.Monad.{World}
use wacs.Db.Query.{sa_differs, OnLog, feed}
use wacs.Lmdb.Order.{starts_with}
use wacs.Db.Stored.{
  Entry, IsEntry, IsBehind, entry_item, log_key_of-entry_key, tag_at-entry_key,
  log_data_at-entry_item,
}
use wacs.Db.Read.{Query, query, log_seek_key, read_log_step, read_log}
use wacs.Db.Read.Walk.{from_key, visible_logs, visible_next, read_from-eq-walk, walk-read_log_step}

-- A reader has ended: with code 0 and the given environment, or with an error code.
abbrev pub Yields : {E : Type 0} → Option (ℤ × Option E) → E → Type 0
Yields {E} o x =
    (o ≡ some (mdb_success, some x))
    ⊎ ((r : ℤ) × (e' : E) × (r ≢ mdb_success) × (o ≡ some (r, some e')))

pub Yields-intro :
    {E : Type 0} (o : Option (ℤ × Option E)) (r : ℤ) (e' x : E)
    → o ≡ some (r, some e')
    → (r ≡ mdb_success → e' ≡ x)
    → Yields o x
Yields-intro o r e' x p h = elim (Bool-cases (eq_ℤ r mdb_success)) [
  | inl ok ↦
      let zero_code = (eq_ℤ_iff r mdb_success).0 ok in
      inl (p ∙ ap₂ (λ c y. some (c, some y)) zero_code (h zero_code))
  | inr bad ↦ inr (r, e', (λ z. cc ((eq_ℤ_iff r mdb_success).1 z, bad)), p)
]

module _ {L : Lmdb} (C : Contract L) {E : Type 0} (past : Bytes → ℕ → ℕ) (pad fuel : ℕ) where
  -- With more fuel than stored items readLog ends. If its code is 0, its callback has been called,
  -- in key order and until it asked to stop, on the visible records of the committed items from the
  -- seek key on.
  pub read_log-eq-feed :
      (sa : Option Bytes) (sa_size start finish : ℤ) (f : OnLog E) (e : E) (w : World L)
      → length (C.view w.lib).committed < fuel
      → Yields (read_log past pad fuel sa sa_size start finish (some f) (some e) w).0 (
          feed f
            (visible_logs past
              (query sa sa_size start finish)
              (from_key (log_seek_key pad sa sa_size start) (C.view w.lib).committed))
            e)
  unfolding read_log
  read_log-eq-feed sa sa_size start finish f e w lt =
      let q = query sa sa_size start finish in
      let k = log_seek_key pad sa sa_size start in
      let step : Item → E → _ = read_log_step past q f in
      let (r, e', p, walked) = read_from-eq-walk C fuel k step e w lt in
      Yields-intro (read_log past pad fuel sa sa_size start finish (some f) (some e) w).0 r e' _
        (ground (arith, p))
        (λ ok. walked ok ∙ walk-read_log_step past q f (from_key k (C.view w.lib).committed) e)

-- A record that passes the filter: its address begins with the given bytes, and its time is in the
-- range.
abbrev pub Passes : Query → LogKey × Option LogData → Type 0
Passes q (k, d) =
    (sa_differs q.sa q.sz k.sa ≡ false) × (q.start ≤ℤ pos k.dt) × (pos k.dt ≤ℤ q.finish)

-- Whatever the database holds, and whatever memory holds past a short key, each record that readLog
-- delivers passes the filter and comes with its data.
pub visible_logs-Passes :
    (past : Bytes → ℕ → ℕ) (q : Query) (is : List Item)
    → All (λ r. Passes q r) (visible_logs past q is)
unfolding visible_logs
visible_logs-Passes past q [] = tt
visible_logs-Passes past q ((k, v) ∷ is) = ground (arith, visible_logs-Passes past q is)

-- The entries whose address begins with the given bytes and whose time is in the range, in order.
unfoldable pub matches : Query → Bytes → List Entry → List (LogKey × Option LogData)
unfolding starts_with
matches q p [] = []
matches q p (n ∷ ns) =
    let rest = matches q p ns in
    if starts_with p n.sa && not (ltb_ℤ q.finish (pos n.dt)) && not (ltb_ℤ (pos n.dt) q.start)
    then (record { sa = n.sa; dt = n.dt }, some n.entry_data) ∷ rest
    else rest

-- Behind the log entries readLog delivers nothing: it stops or runs to the end.
pub visible-behind :
    (past : Bytes → ℕ → ℕ) (q : Query) (is : List Item)
    → All IsBehind is
    → visible_logs past q is ≡ []
unfolding visible_logs tag_at
visible-behind past q [] h = refl
visible-behind past q ((k, v) ∷ is) ((t, r, e, lt), h) =
    ground (arith, e, lt, visible-behind past q is h)

pub from_key-IsBehind :
    (k : Bytes) (is : List Item) → All IsBehind is → All IsBehind (from_key k is)
unfolding from_key
from_key-IsBehind k [] h = tt
from_key-IsBehind k ((j, v) ∷ is) h = elim (Bool-cases (key_lt j k)) [
  | inl e ↦ rw e (from_key-IsBehind k is h.1)
  | inr e ↦ rw e h
]

-- One step of the visible records at a log entry, by the fields of the entry.
pub visible-cons :
    (past : Bytes → ℕ → ℕ) (q : Query) (n : Entry) (is : List Item)
    → IsEntry n
    → visible_logs past q (entry_item n ∷ is)
      ≡ visible_next q 4
          (record { sa = n.sa; dt = n.dt })
          b'L'
          n.entry_data
          (visible_logs past q is)
unfolding visible_logs entry_item
visible-cons past q n is valid = λ i.
    visible_next q 4 (log_key_of-entry_key past valid i) (tag_at-entry_key past valid i)
      (log_data_at-entry_item past valid i) (visible_logs past q is)
