-- ===== src/Db/Read/Probes.antt =====
-- What readLastProbe sees of the items that putLog, putLogEntries and putNotification write.
use wacs.Prelude.{
  ℕ, suc, ◌<◌, ◌^◌, ◌≡◌, refl, ap, ◌∙◌, true, false, not, ◌&&◌, ◌||◌, Option, none, List, [], ◌∷◌,
  ◌++◌, map, pos, arith, length, ltb, ltb_ℤ, if◌then◌else◌, Bool-cases, inl, inr, All,
}
use wacs.Layout.{
  Bytes, LogKey, LogData, last_probe_key_bytes, le_bytes, sa_at, time_at, byte_at, swap32,
  sizeof_last_probe_key, sizeof_time_t,
}
use wacs.Layout.RoundTrip.{time_at-le_bytes, swap32_twice, swap32-lt}
use wacs.Lmdb.{Item}
use wacs.Lmdb.Shelf.{key_lt}
use wacs.Lmdb.Order.{starts_with, key_lt-starts_with, key_lt_trans_not, starts_with-past}
use wacs.Db.Query.{sa_differs}
use wacs.Db.Put.{probe_item}
use wacs.Db.Read.{Query}
use wacs.Db.Read.Walk.{from_key, visible_probes}
use wacs.Db.Read.Complete.{LooksFor, in_range, All-map}

-- A last probe: an address and the time of its last packet.
pub record Probe : Type 0 where
  pub sa : Bytes
  pub dt : ℕ

pub record IsProbe (n : Probe) : Type 0 where
  pub six : length n.sa ≡ 6
  pub dt_u32 : n.dt < 2 ^ 32

abbrev pub item_of : Probe → Item
item_of n = probe_item n.sa n.dt

-- One last probe for each address, in the order of the addresses.
abbrev pub InOrder : List Probe → Type 0
InOrder [] = Unit
InOrder (n ∷ ns) = All (λ (m : Probe). key_lt n.sa m.sa ≡ true) ns × InOrder ns

-- An item that stands before the probes, as a log entry does.
abbrev pub IsBefore : Item → Type 0
IsBefore i = (t : ℕ) × (r : Bytes) × (i.0 ≡ t ∷ r) × (t < b'P')

-- An item behind the probes, as a notification, of an address that does not begin with the bytes.
abbrev pub IsElsewhere : Bytes → Item → Type 0
IsElsewhere p i =
    (t : ℕ) × (x : Bytes) × (r : Bytes) × (i.0 ≡ t ∷ (x ++ r))
    × (b'P' < t)
    × (length x ≡ 6)
    × (starts_with p x ≡ false)

-- The probes whose address begins with the bytes and whose time is in the range.
unfoldable pub probes_of : Query → Bytes → List Probe → List (LogKey × Option LogData)
unfolding starts_with
probes_of q p [] = []
probes_of q p (n ∷ ns) =
    let rest = probes_of q p ns in
    if starts_with p n.sa && in_range q n.dt
    then (record { sa = n.sa; dt = n.dt }, none) ∷ rest
    else rest

sa_at-front :
    (past : Bytes → ℕ → ℕ) (t : ℕ) (x r : Bytes) → length x ≡ 6 → sa_at past (t ∷ (x ++ r)) ≡ x
unfolding sa_at byte_at
sa_at-front past t (a ∷ b ∷ c ∷ d ∷ e ∷ f ∷ []) r six = refl
sa_at-front past t _ r six = absurd (omega arith)

sa_at-probe : (past : Bytes → ℕ → ℕ) (t : ℕ) (x : Bytes) → length x ≡ 6 → sa_at past (t ∷ x) ≡ x
unfolding sa_at byte_at
sa_at-probe past t (a ∷ b ∷ c ∷ d ∷ e ∷ f ∷ []) six = refl
sa_at-probe past t _ six = absurd (omega arith)

time_at-probe :
    (past : Bytes → ℕ → ℕ) (dt : ℕ)
    → dt < 2 ^ 32
    → swap32 (time_at past (le_bytes 8 (swap32 dt))) ≡ dt
time_at-probe past dt small =
    ap swap32 (time_at-le_bytes past (swap32 dt) (omega (arith, swap32-lt dt)))
    ∙ swap32_twice dt
    ∙ omega (arith, small)

-- What readLastProbe makes of one item with the given sizes of its key and its value, where `rest` is
-- what it delivers from the next item on.
unfoldable probe_next :
    Query → ℕ → ℕ → LogKey → List (LogKey × Option LogData) → List (LogKey × Option LogData)
unfolding sa_differs
probe_next q key_size size key rest =
    if ltb key_size sizeof_last_probe_key || ltb size sizeof_time_t
    then rest
    else if sa_differs q.sa q.sz key.sa
    then []
    else if ltb_ℤ q.finish (pos key.dt) || ltb_ℤ (pos key.dt) q.start
    then rest
    else (key, none) ∷ rest

visible-next :
    (past : Bytes → ℕ → ℕ) (q : Query) (k v : Bytes) (is : List Item)
    → visible_probes past q ((k, v) ∷ is)
      ≡ probe_next q
          (length k)
          (length v)
          (record { sa = sa_at past k; dt = swap32 (time_at past v) })
          (visible_probes past q is)
unfolding visible_probes probe_next
visible-next past q k v is = refl

module _ (past : Bytes → ℕ → ℕ) (q : Query) (p : Bytes) (looks : LooksFor q p) where
  probe_whole :
      (key : LogKey) (rest : List (LogKey × Option LogData))
      → probe_next q 7 8 key rest ≡ (
          if not (starts_with p key.sa)
          then []
          else if in_range q key.dt
          then (key, none) ∷ rest
          else rest)
  unfolding probe_next
  probe_whole key rest = ground (arith, looks.differs key.sa)

  visible-item :
      (k v x : Bytes) (dt : ℕ) (is : List Item)
      → sa_at past k ≡ x
      → swap32 (time_at past v) ≡ dt
      → length k ≡ 7
      → length v ≡ 8
      → visible_probes past q ((k, v) ∷ is) ≡ (
          if not (starts_with p x)
          then []
          else if in_range q dt
          then (record { sa = x; dt = dt }, none) ∷ visible_probes past q is
          else visible_probes past q is)
  visible-item k v x dt is same_sa same_dt seven eight =
      visible-next past q k v is
      ∙ (λ i.
          probe_next q (seven i) (eight i) (record { sa = same_sa i; dt = same_dt i })
            (visible_probes past q is))
      ∙ probe_whole (record { sa = x; dt = dt }) (visible_probes past q is)

  visible-cons :
      (n : Probe) (is : List Item)
      → IsProbe n
      → visible_probes past q (item_of n ∷ is) ≡ (
          if not (starts_with p n.sa)
          then []
          else if in_range q n.dt
          then (record { sa = n.sa; dt = n.dt }, none) ∷ visible_probes past q is
          else visible_probes past q is)
  unfolding probe_item last_probe_key_bytes le_bytes
  visible-cons n is valid =
      visible-item (b'P' ∷ n.sa) (le_bytes 8 (swap32 n.dt)) n.sa n.dt is
        (sa_at-probe past b'P' n.sa valid.six) (time_at-probe past n.dt valid.dt_u32)
        (ap suc valid.six) refl

  elsewhere-none : (is : List Item) → All (IsElsewhere p) is → visible_probes past q is ≡ []
  unfolding visible_probes
  elsewhere-none [] h = refl
  elsewhere-none ((k, v) ∷ is) ((t, x, r, e, above, six, miss), h) = ground (
    arith,
    ap (sa_at past) e ∙ sa_at-front past t x r six,
    looks.differs x,
    miss,
    elsewhere-none is h,
  )

  from_key-elsewhere : (is : List Item) → All (IsElsewhere p) is → from_key (b'P' ∷ p) is ≡ is
  unfolding from_key key_lt
  from_key-elsewhere [] h = refl
  from_key-elsewhere ((k, v) ∷ is) ((t, x, r, e, above, six, miss), h) =
      ground (arith, ap (λ j. key_lt j (b'P' ∷ p)) e, above)

  pub from_key-before :
      (bs is : List Item)
      → All IsBefore bs
      → from_key (b'P' ∷ p) (bs ++ is) ≡ from_key (b'P' ∷ p) is
  unfolding from_key key_lt
  from_key-before [] is h = refl
  from_key-before ((k, v) ∷ bs) is ((t, r, e, below), h) =
      ground (arith, ap (λ j. key_lt j (b'P' ∷ p)) e, below, from_key-before bs is h)

  from_key-probe :
      (n : Probe) (is : List Item)
      → from_key (b'P' ∷ p) (item_of n ∷ is)
        ≡ (if key_lt n.sa p then from_key (b'P' ∷ p) is else item_of n ∷ is)
  unfolding from_key key_lt probe_item last_probe_key_bytes
  from_key-probe n is = ground arith

  none_of :
      (ns : List Probe) → All (λ (n : Probe). starts_with p n.sa ≡ false) ns → probes_of q p ns ≡ []
  unfolding probes_of
  none_of [] h = refl
  none_of (n ∷ ns) (e, h) = ground (arith, e, none_of ns h)

  below_misses : (x : Bytes) → key_lt x p ≡ true → starts_with p x ≡ false
  below_misses x below = elim (Bool-cases (starts_with p x)) [
    | inl hit ↦ cc (below, key_lt-starts_with p x hit)
    | inr miss ↦ miss
  ]

  not_below :
      (ns : List Probe) (rest : List Item)
      → All IsProbe ns
      → InOrder ns
      → All (IsElsewhere p) rest
      → All (λ (n : Probe). key_lt n.sa p ≡ false) ns
      → visible_probes past q (map item_of ns ++ rest) ≡ probes_of q p ns
  unfolding probes_of
  not_below [] rest valid order other above = elsewhere-none rest other
  not_below (n ∷ ns) rest valid order other above =
      visible-cons n (map item_of ns ++ rest) valid.0 ∙ elim (Bool-cases (starts_with p n.sa)) [
        | inl hit ↦ ground (arith, hit, not_below ns rest valid.1 order.1 other above.1)
        | inr miss ↦ ground (
          arith,
          miss,
          none_of ns
              (All-map (λ (m : Probe) lt. starts_with-past p n.sa m.sa above.0 miss lt) ns order.0),
        )
      ]

  pub visible-eq-probes_of :
      (ns : List Probe) (rest : List Item)
      → All IsProbe ns
      → InOrder ns
      → All (IsElsewhere p) rest
      → visible_probes past q (from_key (b'P' ∷ p) (map item_of ns ++ rest)) ≡ probes_of q p ns
  unfolding probes_of
  visible-eq-probes_of [] rest valid order other =
      ap (visible_probes past q) (from_key-elsewhere rest other) ∙ elsewhere-none rest other
  visible-eq-probes_of (n ∷ ns) rest valid order other =
      let is = map item_of ns ++ rest in
      ap (visible_probes past q) (from_key-probe n is) ∙ elim (Bool-cases (key_lt n.sa p)) [
        | inl below ↦
            ap (λ b. visible_probes past q (if b then from_key (b'P' ∷ p) is else item_of n ∷ is))
              below
            ∙ visible-eq-probes_of ns rest valid.1 order.1 other
            ∙ ground (arith, below_misses n.sa below)
        | inr above ↦
            ap (λ b. visible_probes past q (if b then from_key (b'P' ∷ p) is else item_of n ∷ is))
              above
            ∙ not_below (n ∷ ns) rest valid order other (
              above,
              All-map (λ (m : Probe) lt. key_lt_trans_not p n.sa m.sa above lt) ns order.0,
            )
      ]
