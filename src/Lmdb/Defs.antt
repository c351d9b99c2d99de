-- ===== src/Lmdb/Defs.antt =====
-- The functions of the library that dblog.cpp calls, and the result codes that it tests.
use wacs.Prelude.{ℕ, ℤ, pos, negsuc}
use wacs.Layout.{Bytes}

-- A key and its value.
abbrev pub Item : Type 0
Item = Bytes × Bytes

-- MDB_SET_RANGE, MDB_FIRST, MDB_NEXT
pub data Op : Type 0 where
  set_range : Bytes → Op
  first next : Op

-- A result code, and what is written through the pointers beside it.
pub record Lmdb : Type 1 where
  pub State : Type 0
  pub env_create : State → ℤ × ℕ × State
  pub env_open : ℕ → Bytes → ℤ → ℤ → State → ℤ × State
  pub env_close : ℕ → State → State
  pub env_info : ℕ → State → ℤ × ℕ × State
  pub env_set_mapsize : ℕ → ℕ → State → ℤ × State
  pub txn_begin : ℕ → State → ℤ × ℕ × State
  pub txn_commit : ℕ → State → ℤ × State
  pub txn_abort : ℕ → State → ℤ × State
  pub dbi_open : ℕ → State → ℤ × ℕ × State
  pub dbi_close : ℕ → ℕ → State → State
  pub put : ℕ → ℕ → Bytes → Bytes → State → ℤ × State
  pub del : ℕ → ℕ → Bytes → State → ℤ × State
  pub cursor_open : ℕ → ℕ → State → ℤ × ℕ × State
  pub cursor_get : ℕ → Op → State → ℤ × Item × State
  pub cursor_del : ℕ → State → ℤ × State

abbrev pub mdb_success : ℤ
mdb_success = pos 0

-- MDB_MAP_FULL is -30792 and MDB_NOTFOUND is -30798, in both libraries.
abbrev pub mdb_map_full : ℤ
mdb_map_full = negsuc 30791

abbrev pub mdb_notfound : ℤ
mdb_notfound = negsuc 30797
