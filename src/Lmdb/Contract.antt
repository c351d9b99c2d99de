-- ===== src/Lmdb/Contract.antt =====
-- The documented behaviour of the library, on the abstract view: a call that succeeds does its
-- operation, a commit that fails ends the transaction as an abort does, another call that fails
-- changes nothing, and a cursor walks the items in key order.
use wacs.Prelude.{ℕ, ℤ, Option, none, some, ◌≡◌, ◌≢◌, eq_ℤ, if◌then◌else◌}
use wacs.Layout.{Bytes}
use wacs.Lmdb.Defs.{Lmdb, Item, Op, set_range, first, next, mdb_success, mdb_map_full}
use wacs.Lmdb.Shelf.{Shelf, items, at_start, seek, advance, remove_here, insert, erase}

-- What a cursor call hands out.
abbrev pub found : ℤ → Item → Option Item
found r i = if eq_ℤ r mdb_success then some i else none

-- The view after a cursor call.
unfoldable pub go_to : Op → Shelf → Shelf
unfolding seek advance at_start items
go_to (set_range k) s = seek k s.committed (items s)
go_to first s = at_start s.committed (items s)
go_to next s = advance s

pub record Contract (L : Lmdb) : Type 1 where
  pub view : L.State → Shelf
  pub create_view : (s : L.State) → view (L.env_create s).2 ≡ view s
  pub env_open_view :
      (e : ℕ) (p : Bytes) (f m : ℤ) (s : L.State) → view (L.env_open e p f m s).1 ≡ view s
  pub close_view : (e : ℕ) (s : L.State) → view (L.env_close e s) ≡ view s
  pub info_view : (e : ℕ) (s : L.State) → view (L.env_info e s).2 ≡ view s
  pub mapsize_view : (e n : ℕ) (s : L.State) → view (L.env_set_mapsize e n s).1 ≡ view s
  pub dbi_open_view : (t : ℕ) (s : L.State) → view (L.dbi_open t s).2 ≡ view s
  pub dbi_close_view : (e d : ℕ) (s : L.State) → view (L.dbi_close e d s) ≡ view s
  pub begin_view :
      (e : ℕ) (s : L.State)
      → (L.txn_begin e s).0 ≡ mdb_success
      → view (L.txn_begin e s).2 ≡ at_start (view s).committed (view s).committed
  pub begin_failed_view :
      (e : ℕ) (s : L.State) → (L.txn_begin e s).0 ≢ mdb_success → view (L.txn_begin e s).2 ≡ view s
  pub commit_view :
      (t : ℕ) (s : L.State)
      → (L.txn_commit t s).0 ≡ mdb_success
      → view (L.txn_commit t s).1 ≡ at_start (items (view s)) (items (view s))
  pub commit_failed_view :
      (t : ℕ) (s : L.State)
      → (L.txn_commit t s).0 ≢ mdb_success
      → view (L.txn_commit t s).1 ≡ at_start (view s).committed (view s).committed
  pub abort_view :
      (t : ℕ) (s : L.State)
      → view (L.txn_abort t s).1 ≡ at_start (view s).committed (view s).committed
  pub put_view :
      (t d : ℕ) (k v : Bytes) (s : L.State)
      → (L.put t d k v s).0 ≡ mdb_success
      → view (L.put t d k v s).1 ≡ at_start (view s).committed (insert k v (items (view s)))
  pub put_failed_view :
      (t d : ℕ) (k v : Bytes) (s : L.State)
      → (L.put t d k v s).0 ≢ mdb_success
      → view (L.put t d k v s).1 ≡ view s
  pub del_view :
      (t d : ℕ) (k : Bytes) (s : L.State)
      → (L.del t d k s).0 ≡ mdb_success
      → view (L.del t d k s).1 ≡ at_start (view s).committed (erase k (items (view s)))
  pub del_failed_view :
      (t d : ℕ) (k : Bytes) (s : L.State)
      → (L.del t d k s).0 ≢ mdb_success
      → view (L.del t d k s).1 ≡ view s
  pub open_view : (t d : ℕ) (s : L.State) → view (L.cursor_open t d s).2 ≡ view s
  pub get_view : (c : ℕ) (o : Op) (s : L.State) → view (L.cursor_get c o s).2 ≡ go_to o (view s)
  pub get_found :
      (c : ℕ) (o : Op) (s : L.State)
      → found (L.cursor_get c o s).0 (L.cursor_get c o s).1 ≡ (go_to o (view s)).here
  pub cursor_del_view :
      (c : ℕ) (s : L.State)
      → (L.cursor_del c s).0 ≡ mdb_success
      → view (L.cursor_del c s).1 ≡ remove_here (view s)
  pub cursor_del_failed_view :
      (c : ℕ) (s : L.State)
      → (L.cursor_del c s).0 ≢ mdb_success
      → view (L.cursor_del c s).1 ≡ view s

-- The map has room for whatever is stored: no call answers MDB_MAP_FULL.
pub record IsRoomy (L : Lmdb) : Type 1 where
  pub put_fits : (t d : ℕ) (k v : Bytes) (s : L.State) → (L.put t d k v s).0 ≢ mdb_map_full
  pub commit_fits : (t : ℕ) (s : L.State) → (L.txn_commit t s).0 ≢ mdb_map_full
