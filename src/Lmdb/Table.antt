-- ===== src/Lmdb/Table.antt =====
-- A library in memory that keeps the contract: a shelf, whose mdb_put answers MDB_MAP_FULL when the
-- library is limited and a new key does not fit its room.
use wacs.Prelude.{
  not, ◌||◌, ℕ, ℤ, ◌≡◌, ◌≢◌, refl, Bool, true, false, Option, none, some, List, [], arith, length,
  ltb, if◌then◌else◌,
}
use wacs.Layout.{Bytes}
use wacs.Lmdb.Defs.{Lmdb, Item, mdb_success, mdb_map_full, mdb_notfound}
use wacs.Lmdb.Shelf.{Shelf, items, at_start, remove_here, insert, erase, lookup}
use wacs.Lmdb.Contract.{Contract, IsRoomy, found, go_to}

pub record Table : Type 0 where
  pub shelf : Shelf
  pub room : ℕ

-- A database with the given committed items.
unfoldable pub table : ℕ → List Item → Table
unfolding at_start
table room is = record { shelf = at_start is is; room = room }

unfoldable pub on_shelf : Table → Shelf → Table
on_shelf t v = record t { shelf = v }

unfoldable pub is_some : Option Bytes → Bool
is_some none = false
is_some (some v) = true

unfoldable pub table_put : Bool → ℕ → ℕ → Bytes → Bytes → Table → ℤ × Table
unfolding items at_start insert lookup is_some on_shelf
table_put limited h d k v t =
    let is = items t.shelf in
    if is_some (lookup k is)
    then (mdb_success, on_shelf t (at_start t.shelf.committed (insert k v is)))
    else if not limited || ltb (length is) t.room
    then (mdb_success, on_shelf t (at_start t.shelf.committed (insert k v is)))
    else (mdb_map_full, t)

unfoldable pub table_del : ℕ → ℕ → Bytes → Table → ℤ × Table
unfolding items at_start erase lookup is_some on_shelf
table_del h d k t =
    let is = items t.shelf in
    if is_some (lookup k is)
    then (mdb_success, on_shelf t (at_start t.shelf.committed (erase k is)))
    else (mdb_notfound, t)

table_del_failed :
    (h d : ℕ) (k : Bytes) (t : Table)
    → (table_del h d k t).0 ≢ mdb_success
    → (table_del h d k t).1.shelf ≡ t.shelf
unfolding table_del
table_del_failed h d k t bad = ground arith

-- What a cursor call hands out.
unfoldable pub hand_out : Option Item → ℤ × Item
hand_out none = (mdb_notfound, ([], []))
hand_out (some i) = (mdb_success, i)

unfoldable pub table_lmdb : Bool → Lmdb
unfolding table_put table_del hand_out go_to items at_start remove_here on_shelf
table_lmdb limited = record {
  State = Table;
  env_create = λ t. (mdb_success, 1, t);
  env_open = λ e p f m t. (mdb_success, t);
  env_close = λ e t. t;
  env_info = λ e t. (mdb_success, t.room, t);
  env_set_mapsize = λ e n t. (mdb_success, record t { room = n });
  txn_begin = λ e t. (mdb_success, 1, on_shelf t (at_start t.shelf.committed t.shelf.committed));
  txn_commit = λ h t. (mdb_success, on_shelf t (at_start (items t.shelf) (items t.shelf)));
  txn_abort = λ h t. (mdb_success, on_shelf t (at_start t.shelf.committed t.shelf.committed));
  dbi_open = λ h t. (mdb_success, 1, t);
  dbi_close = λ e d t. t;
  put = table_put limited;
  del = table_del;
  cursor_open = λ h d t. (mdb_success, 1, t);
  cursor_get =
      λ c o t. let v = go_to o t.shelf in ((hand_out v.here).0, (hand_out v.here).1, on_shelf t v);
  cursor_del = λ c t. (mdb_success, on_shelf t (remove_here t.shelf));
}

table_put_view :
    (l : Bool) (h d : ℕ) (k v : Bytes) (t : Table)
    → (table_put l h d k v t).0 ≡ mdb_success
    → (table_put l h d k v t).1.shelf ≡ at_start t.shelf.committed (insert k v (items t.shelf))
unfolding table_put
table_put_view l h d k v t ok = ground arith

table_put_failed :
    (l : Bool) (h d : ℕ) (k v : Bytes) (t : Table)
    → (table_put l h d k v t).0 ≢ mdb_success
    → (table_put l h d k v t).1.shelf ≡ t.shelf
unfolding table_put
table_put_failed l h d k v t bad = ground arith

table_del_view :
    (h d : ℕ) (k : Bytes) (t : Table)
    → (table_del h d k t).0 ≡ mdb_success
    → (table_del h d k t).1.shelf ≡ at_start t.shelf.committed (erase k (items t.shelf))
unfolding table_del
table_del_view h d k t ok = ground arith

hand_out_found : (o : Option Item) → found (hand_out o).0 (hand_out o).1 ≡ o
unfolding hand_out
hand_out_found none = refl
hand_out_found (some i) = refl

unfoldable pub table_contract : (limited : Bool) → Contract (table_lmdb limited)
unfolding table_lmdb table_put_view table_put_failed table_del_view table_del_failed hand_out_found
table_contract limited = record {
  view = λ (t : Table). t.shelf;
  create_view = λ s. refl;
  env_open_view = λ e p f m s. refl;
  close_view = λ e s. refl;
  info_view = λ e s. refl;
  mapsize_view = λ e n s. refl;
  dbi_open_view = λ t s. refl;
  dbi_close_view = λ e d s. refl;
  begin_failed_view = λ e s bad. absurd (bad refl);
  commit_failed_view = λ t s bad. absurd (bad refl);
  begin_view = λ e s ok. refl;
  commit_view = λ t s ok. refl;
  abort_view = λ t s. refl;
  put_view = table_put_view limited;
  put_failed_view = table_put_failed limited;
  del_view = table_del_view;
  del_failed_view = table_del_failed;
  open_view = λ t d s. refl;
  get_view = λ c o s. refl;
  get_found = λ c o s. hand_out_found (go_to o s.shelf).here;
  cursor_del_view = λ c s ok. refl;
  cursor_del_failed_view = λ c s bad. absurd (bad refl);
}

table_put_fits : (h d : ℕ) (k v : Bytes) (t : Table) → (table_put false h d k v t).0 ≢ mdb_map_full
unfolding table_put
table_put_fits h d k v t e = ground arith

-- A table that is not limited is roomy.
pub table-IsRoomy : IsRoomy (table_lmdb false)
unfolding table_lmdb table_put_fits
table-IsRoomy = record { put_fits = table_put_fits; commit_fits = λ t s e. ground arith }
