-- ===== src/Lmdb.antt =====
-- The key-value library under dblog.cpp (libmdbx or LMDB, chosen by the build) as a parameter: its
-- state and one operation for each function that the code calls. Handles are numbers, 0 is NULL.
-- `Contract` states the documented behaviour that theorems rely on, `Table` is a concrete library.
mod Defs
pub mod Shelf
pub mod Order
pub mod Contract
pub mod Table
pub use Defs.{Lmdb, Op, set_range, first, next, Item, mdb_success, mdb_map_full, mdb_notfound}
