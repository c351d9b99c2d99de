-- ===== src/Db/Stored.antt =====
-- The items that putLog and putLogEntries write: a log entry under its `LogKey`, a last probe under
-- its `LastProbeKey`, and what the readers see of them.
use wacs.Prelude.{
  ℕ, ◌<◌, ◌≤◌, ◌^◌, ◌≡◌, refl, ap, ◌∙◌, true, ◌&&◌, List, [], ◌∷◌, ◌++◌, arith, length, take, ◌==◌,
  All,
}
use wacs.Layout.{
  Bytes, LogData, log_key_bytes, log_data_bytes, tag_at, sa_at, dt_at, log_data_at, swap32,
  le_bytes,
}
use wacs.Layout.RoundTrip.{
  tag_at-log_key_bytes, sa_at-log_key_bytes, dt_at-log_key_bytes, log_data_at-log_data_bytes,
  swap32_twice, swap32-lt,
}
use wacs.Lmdb.{Item}
use wacs.Lmdb.Order.{starts_with}
use wacs.Lmdb.Shelf.{key_lt}
use wacs.Db.Query.{bytes_eq}
use wacs.Db.Read.{log_key_of}

-- A log entry with the padding bytes that its key and its data were stored with.
pub record Entry : Type 0 where
  pub sa : Bytes
  pub dt : ℕ
  pub entry_data : LogData
  pub key_pad : ℕ
  pub data_pad : ℕ

-- The fields are in the range of their C types.
pub record IsEntry (n : Entry) : Type 0 where
  pub six : length n.sa ≡ 6
  pub dt_u32 : n.dt < 2 ^ 32
  pub device_u16 : n.entry_data.device_id < 2 ^ 16
  pub signal_i8 : n.entry_data.ssi_signal < 2 ^ 8

unfoldable pub entry_key : Entry → Bytes
unfolding log_key_bytes swap32
entry_key n = log_key_bytes n.key_pad b'L' n.sa (swap32 n.dt)

unfoldable pub entry_item : Entry → Item
unfolding entry_key log_data_bytes
entry_item n = (entry_key n, log_data_bytes n.data_pad n.entry_data)

-- The entries are in the order of their keys.
abbrev pub Sorted : List Entry → Type 0
Sorted [] = Unit
Sorted (n ∷ ns) = All (λ m. key_lt (entry_key n) (entry_key m) ≡ true) ns × Sorted ns

-- The item stands behind the log entries: its tag is above 'L', as 'P' and 'T' are.
abbrev pub IsBehind : Item → Type 0
IsBehind (k, v) = (t : ℕ) × (r : Bytes) × (k ≡ t ∷ r) × (b'L' < t)

module _ (past : Bytes → ℕ → ℕ) {n : Entry} (valid : IsEntry n) where
  pub log_key_of-entry_key : log_key_of past (entry_key n) ≡ record { sa = n.sa; dt = n.dt }
  unfolding log_key_of entry_key
  log_key_of-entry_key = λ i. record { sa = same_sa i; dt = same_dt i }
    where
      same_sa : sa_at past (entry_key n) ≡ n.sa
      same_sa = sa_at-log_key_bytes past n.key_pad b'L' n.sa (swap32 n.dt) valid.six

      stored : dt_at past (entry_key n) ≡ swap32 n.dt
      stored =
          dt_at-log_key_bytes past n.key_pad b'L' n.sa (swap32 n.dt) valid.six
            (omega (arith, swap32-lt n.dt))

      same_dt : swap32 (dt_at past (entry_key n)) ≡ n.dt
      same_dt = ap swap32 stored ∙ swap32_twice n.dt ∙ omega (arith, valid.dt_u32)

  pub tag_at-entry_key : tag_at past (entry_key n) ≡ b'L'
  unfolding entry_key
  tag_at-entry_key = tag_at-log_key_bytes past n.key_pad b'L' n.sa (swap32 n.dt)

  pub log_data_at-entry_item : log_data_at past (entry_item n).1 ≡ n.entry_data
  unfolding entry_item
  log_data_at-entry_item =
      log_data_at-log_data_bytes past n.data_pad n.entry_data valid.device_u16 valid.signal_i8

-- `memcmp` on the first bytes says whether one begins with the other.
pub bytes_eq-take : (p x : Bytes) → bytes_eq (take (length p) x) p ≡ starts_with p x
unfolding bytes_eq starts_with
bytes_eq-take [] x = refl
bytes_eq-take (b ∷ p) [] = refl
bytes_eq-take (b ∷ p) (a ∷ x) = ap (λ c. (a == b) && c) (bytes_eq-take p x)

-- A log key begins with the tag and some bytes of an address exactly if the address begins with
-- those.
pub starts_with-append :
    (p x y : Bytes) → length p ≤ length x → starts_with p (x ++ y) ≡ starts_with p x
unfolding starts_with
starts_with-append [] x y h = refl
starts_with-append (b ∷ p) [] y h = absurd (omega arith)
starts_with-append (b ∷ p) (a ∷ x) y h =
    ap (λ c. (a == b) && c) (starts_with-append p x y (omega arith))

pub starts_with-entry_key :
    (p : Bytes) (n : Entry)
    → length p ≤ length n.sa
    → starts_with (b'L' ∷ p) (entry_key n) ≡ starts_with p n.sa
unfolding entry_key starts_with
starts_with-entry_key p n h = starts_with-append p n.sa (n.key_pad ∷ le_bytes 8 (swap32 n.dt)) h
