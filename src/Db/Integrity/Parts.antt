-- ===== src/Db/Integrity/Parts.antt =====
-- A database that the operations reach, as its log entries and the items behind them, and what
-- readLog finds in it.
use mathlib.Core.Path.{subst}
use wacs.Prelude.{
  ℕ, ◌<◌, ◌≡◌, refl, ap, ◌∙◌, true, false, inl, inr, ℤ, pos, List, [], ◌∷◌, ◌++◌, map, All, some,
  length, take, arith,
}
use wacs.Layout.{Bytes, log_key_bytes}
use wacs.Lmdb.{Lmdb, Item}
use wacs.Lmdb.Contract.{Contract}
use wacs.Lmdb.Shelf.{key_lt}
use wacs.Db.Monad.{World}
use wacs.Db.Query.{OnLog, feed}
use wacs.Db.Stored.{Entry, IsEntry, Sorted, IsBehind, entry_key, entry_item}
use wacs.Db.Read.{query, read_log}
use wacs.Db.Read.Exact.{Yields, matches}
use wacs.Db.Read.Results.{read_log-partial_complete}
use wacs.Db.Integrity.Items.{IsStored, Database, Holds}
use wacs.Db.Integrity.Reach.{Reach, Reach-Holds}

-- A database is its log entries in key order, and other items behind them.
pub record Parts (is : List Item) : Type 0 where
  pub logs : List Entry
  pub others : List Item
  pub splits : is ≡ map entry_item logs ++ others
  pub valid : All IsEntry logs
  pub sorted : Sorted logs
  pub behind : All IsBehind others

log_below :
    (k : Bytes) (n : Entry)
    → ((t : ℕ) × (r : Bytes) × (k ≡ t ∷ r) × (b'L' < t))
    → key_lt k (entry_item n).0 ≡ false
unfolding key_lt entry_item entry_key log_key_bytes
log_below k n (t, r, e, above) = ground (arith, e, above)

IsBehind-above :
    (i : Item) (is : List Item)
    → IsBehind i
    → All (λ j. key_lt i.0 j.0 ≡ true) is
    → All IsStored is
    → All IsBehind is
unfolding key_lt entry_item entry_key log_key_bytes
IsBehind-above i [] b lt st = tt
IsBehind-above (k, v) (j ∷ is) b lt (inr p, st) = (p.0, IsBehind-above (k, v) is b lt.1 st)
IsBehind-above (k, v) (j ∷ is) b lt (inl (n, valid, e), st) = absurd (cc (lt.0, e, log_below k n b))

above-All :
    (k : Bytes) (ns : List Entry) (others : List Item)
    → All (λ (j : Item). key_lt k j.0 ≡ true) (map entry_item ns ++ others)
    → All (λ n. key_lt k (entry_key n) ≡ true) ns
unfolding entry_item
above-All k [] others h = tt
above-All k (n ∷ ns) others h = (h.0, above-All k ns others h.1)

key_same : (i : Item) (n : Entry) → i ≡ entry_item n → i.0 ≡ entry_key n
unfolding entry_item
key_same i n e = ap (λ (j : Item). j.0) e

pub Database-Parts : (is : List Item) → Database is → Parts is
Database-Parts [] h = record {
  logs = [];
  others = [];
  splits = refl;
  valid = tt;
  sorted = tt;
  behind = tt;
}
Database-Parts (i ∷ is) ((lt, o), (inr p, st)) = record {
  logs = [];
  others = i ∷ is;
  splits = refl;
  valid = tt;
  sorted = tt;
  behind = (p.0, IsBehind-above i is p.0 lt st);
}
Database-Parts (i ∷ is) ((lt, o), (inl (n, v, e), st)) =
    let rest = Database-Parts is (o, st) in
    record {
      logs = n ∷ rest.logs;
      others = rest.others;
      splits = ap (λ j. j ∷ is) e ∙ ap (λ t. entry_item n ∷ t) rest.splits;
      valid = (v, rest.valid);
      sorted = (
        above-All (entry_key n) rest.logs rest.others (
            subst (λ l. All (λ j. key_lt (entry_key n) j.0 ≡ true) l) rest.splits
              (subst (λ x. All (λ (j : Item). key_lt x j.0 ≡ true) is) (key_same i n e) lt)),
        rest.sorted,
      );
      behind = rest.behind;
    }

module _ {L : Lmdb} (C : Contract L) where
  -- What is committed in a database that the calls reach, as its log entries and the items behind.
  pub parts :
      (s : World L)
      → Holds (C.view s.lib)
      → (w : World L) → Reach s w
      → Parts (C.view w.lib).committed
  parts s h w r = Database-Parts (C.view w.lib).committed (Reach-Holds C s h w r).below

  -- However a database was filled by calls, in any order and with failures, from one that is in order:
  -- with more fuel than items, readLog for fewer than six bytes of an address ends, and if its code
  -- is 0, its callback has been called, until it asked to stop, on exactly the stored log entries
  -- whose address begins with those bytes and whose time is in the range, in key order.
  pub reached-read_log :
      {E : Type 0} (past : Bytes → ℕ → ℕ) (pad fuel : ℕ) (sa : Bytes) (f : OnLog E) (e : E) (n : ℕ)
      (start finish : ℤ) (s : World L) (h : Holds (C.view s.lib)) (w : World L) (r : Reach s w)
      → length sa ≡ 6
      → n < 6
      → length (C.view w.lib).committed < fuel
      → Yields (read_log past pad fuel (some sa) (pos n) start finish (some f) (some e) w).0 (
          feed f
            (matches (query (some sa) (pos n) start finish) (take n sa) (parts s h w r).logs)
            e)
  reached-read_log past pad fuel sa f e n start finish s h w r six small enough =
      let p = parts s h w r in
      read_log-partial_complete C past pad fuel sa six p.logs p.others p.valid p.sorted p.behind f e
        w p.splits enough n start finish small
