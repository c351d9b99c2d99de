-- ===== src/Db/Integrity/Items.antt =====
-- The items that may stand in the database, and that storing and removing keeps them.
use mathlib.Core.Path.{ap₂}
use wacs.Prelude.{
  ℕ, ◌%◌, ◌/◌, ◌^◌, ◌≡◌, ◌≤◌, ◌⊎◌, inl, inr, refl, ap, List, [], ◌∷◌, ◌++◌, All, length, arith,
  Option, none, some, Bool-cases, length-append,
}
use wacs.Layout.{
  Bytes, LogData, log_key_bytes, log_data_bytes, last_probe_key_bytes, le_bytes, swap32,
}
use wacs.Lmdb.{Item, Op, set_range, first, next}
use wacs.Lmdb.Shelf.{
  Shelf, items, at_start, seek, cons_before, advance, remove_here, here_list, insert, erase, key_lt,
  items-at_start, committed-at_start,
}
use wacs.Lmdb.Order.{
  Ordered, All-insert, All-erase, All-without, insert-Ordered, erase-Ordered, without-Ordered,
}
use wacs.Lmdb.Contract.{go_to}
use wacs.Db.Stored.{Entry, IsEntry, entry_key, entry_item, IsBehind}
use wacs.Db.Remove.Loop.{shelf_at, append_assoc}
use wacs.Db.Put.{log_item, probe_item}
use wacs.Db.Notification.{notification_key, put_key}

-- A whole log entry with fields in the range of their types, or an item behind the log entries
-- whose key has at least a tag and an address.
abbrev pub IsStored : Item → Type 0
IsStored i = ((n : Entry) × IsEntry n × (i ≡ entry_item n)) ⊎ (IsBehind i × (7 ≤ length i.0))

-- The items of a database: in key order, and each one stored by the code.
abbrev pub Database : List Item → Type 0
Database is = Ordered is × All IsStored is

-- The committed items and those of the open transaction.
pub record Holds (v : Shelf) : Type 0 where
  pub below : Database v.committed
  pub inside : Database (items v)

pub Holds-at_start : (c is : List Item) → Database c → Database is → Holds (at_start c is)
Holds-at_start c is hc hi = record {
  below = rw (committed-at_start c is) hc;
  inside = rw (items-at_start c is) hi;
}

pub insert-Database :
    (i : Item) (is : List Item) → IsStored i → Database is → Database (insert i.0 i.1 is)
insert-Database i is p h = (insert-Ordered i.0 i.1 is h.0, All-insert IsStored i.0 i.1 is p h.1)

pub erase-Database : (k : Bytes) (is : List Item) → Database is → Database (erase k is)
erase-Database k is h = (erase-Ordered k is h.0, All-erase IsStored k is h.1)

without-Database : (b a : List Item) (i : Item) → Database (b ++ i ∷ a) → Database (b ++ a)
without-Database b a i h = (without-Ordered b a i h.0, All-without IsStored b a i h.1)

-- mdb_cursor_del
pub Holds-remove_here : (v : Shelf) → Holds v → Holds (remove_here v)
unfolding remove_here items here_list
Holds-remove_here v h = record { below = h.below; inside = drop_here v.here h.inside }
  where
    drop_here :
        (o : Option Item)
        → Database (v.before ++ (here_list o ++ v.ahead))
        → Database (v.before ++ v.ahead)
    drop_here none d = d
    drop_here (some i) d = without-Database v.before v.ahead i d

items-seek :
    (k : Bytes) (c is : List Item) → (items (seek k c is) ≡ is) × ((seek k c is).committed ≡ c)
unfolding seek items cons_before at_start here_list
items-seek k c [] = (refl, refl)
items-seek k c ((j, v) ∷ is) =
    let rest = items-seek k c is in
    elim (Bool-cases (key_lt j k)) [
      | inl lt ↦ rw lt (ap (λ t. (j, v) ∷ t) rest.0, rest.1)
      | inr ge ↦ rw ge (refl, refl)
    ]

items-shelf_at :
    (c b : List Item) (h : Option Item) (a : List Item)
    → (items (advance (shelf_at c b h a)) ≡ items (shelf_at c b h a))
      × ((advance (shelf_at c b h a)).committed ≡ c)
unfolding items advance here_list
items-shelf_at c b h [] = (append_assoc b (here_list h) [], refl)
items-shelf_at c b h (i ∷ a) = (append_assoc b (here_list h) (i ∷ a), refl)

items-advance : (v : Shelf) → (items (advance v) ≡ items v) × ((advance v).committed ≡ v.committed)
items-advance v = items-shelf_at v.committed v.before v.here v.ahead

-- The cursor moves over the items and changes none.
pub Holds-go_to : (o : Op) (v : Shelf) → Holds v → Holds (go_to o v)
unfolding go_to
Holds-go_to (set_range k) v h =
    let s = items-seek k v.committed (items v) in
    record { below = rw s.1 h.below; inside = rw s.0 h.inside }
Holds-go_to first v h = Holds-at_start v.committed (items v) h.below h.inside
Holds-go_to next v h =
    let s = items-advance v in record { below = rw s.1 h.below; inside = rw s.0 h.inside }

swap32_low : (x : ℕ) → swap32 x ≡ swap32 (x % 2 ^ 32)
unfolding swap32
swap32_low x = omega arith

low_byte : (x : ℕ) → x % 256 ≡ x % 2 ^ 16 % 256
low_byte x = omega arith

next_byte : (x : ℕ) → x / 256 % 256 ≡ x % 2 ^ 16 / 256 % 256
next_byte x = omega arith

signal_byte : (x : ℕ) → x % 256 ≡ x % 2 ^ 8 % 256
signal_byte x = omega arith

-- The items of putLog, putLogEntries and putNotification.
pub log_item-IsStored :
    (key_pad data_pad : ℕ) (sa : Bytes) (dt : ℕ) (d : LogData)
    → length sa ≡ 6
    → IsStored (log_item key_pad data_pad sa dt d)
unfolding log_item entry_item entry_key log_data_bytes le_bytes
log_item-IsStored key_pad data_pad sa dt d six = inl (
  record {
    sa = sa;
    dt = dt % 2 ^ 32;
    entry_data = record { device_id = d.device_id % 2 ^ 16; ssi_signal = d.ssi_signal % 2 ^ 8 };
    key_pad = key_pad;
    data_pad = data_pad;
  },
  record { six = six; dt_u32 = omega arith; device_u16 = omega arith; signal_i8 = omega arith },
  ap₂ (λ k v. (k, v)) (ap (log_key_bytes key_pad b'L' sa) (swap32_low dt))
      (cc (low_byte d.device_id, next_byte d.device_id, signal_byte d.ssi_signal)),
)

pub probe_item-IsStored : (sa : Bytes) (dt : ℕ) → length sa ≡ 6 → IsStored (probe_item sa dt)
unfolding probe_item last_probe_key_bytes
probe_item-IsStored sa dt six = inr ((b'P', sa, refl, omega arith), omega (arith, six))

pub put_key-IsStored : (over sa value : Bytes) → length sa ≡ 6 → IsStored (put_key over sa, value)
unfolding put_key notification_key last_probe_key_bytes
put_key-IsStored over sa value six =
    inr ((b'T', sa ++ over, refl, omega arith), omega (arith, six, length-append sa over))
