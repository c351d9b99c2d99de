-- ===== src/Db/Monad.antt =====
-- Actions of dblog.cpp: the `dbenv` of the caller and the library's state are threaded through.
use wacs.Prelude.{ℕ, ℤ, eq_ℤ, if◌then◌else◌}
use wacs.Layout.{Bytes}
use wacs.Lmdb.{Lmdb, Op, Item, mdb_success}

infixl 5 ◌>>=◌ ◌>>◌
abbrev pub ◌>>=◌ : {S A B : Type 0} → (S → A × S) → (A → S → B × S) → S → B × S
◌>>=◌ m f s = f (m s).0 (m s).1

abbrev pub ◌>>◌ : {S A B : Type 0} → (S → A × S) → (S → B × S) → S → B × S
◌>>◌ m k s = k (m s).1

abbrev pub pure : {S A : Type 0} → A → S → A × S
pure a s = (a, s)

-- `class dbenv`; its `cursor` is not used.
pub record DbEnv : Type 0 where
  pub env : ℕ
  pub dbi : ℕ
  pub txn : ℕ
  pub path : Bytes
  pub flags : ℤ
  pub mode : ℤ
  pub queue : ℤ

pub record World (L : Lmdb) : Type 0 where
  pub db : DbEnv
  pub lib : L.State

abbrev pub M : Lmdb → Type 0 → Type 0
M L A = World L → A × World L

-- Each call of the library, with the handles taken from and stored to the `dbenv`. A handle is
-- stored when the call succeeds.
module _ {L : Lmdb} where
  unfoldable pub env_create : M L ℤ
  env_create w =
      let (r, h, s) = L.env_create w.lib in
      (r, record w { db = if eq_ℤ r mdb_success then record w.db { env = h } else w.db; lib = s })

  unfoldable pub env_open : M L ℤ
  env_open w =
      let (r, s) = L.env_open w.db.env w.db.path w.db.flags w.db.mode w.lib in
      (r, record w { lib = s })

  unfoldable pub env_close : M L (Unit {0})
  env_close w = (tt, record w { lib = L.env_close w.db.env w.lib })

  unfoldable pub env_info : M L (ℤ × ℕ)
  env_info w = let (r, size, s) = L.env_info w.db.env w.lib in ((r, size), record w { lib = s })

  unfoldable pub env_set_mapsize : ℕ → M L ℤ
  env_set_mapsize n w = let (r, s) = L.env_set_mapsize w.db.env n w.lib in (r, record w { lib = s })

  unfoldable pub txn_begin : M L ℤ
  txn_begin w =
      let (r, h, s) = L.txn_begin w.db.env w.lib in
      (r, record w { db = if eq_ℤ r mdb_success then record w.db { txn = h } else w.db; lib = s })

  unfoldable pub txn_commit : M L ℤ
  txn_commit w = let (r, s) = L.txn_commit w.db.txn w.lib in (r, record w { lib = s })

  unfoldable pub txn_abort : M L ℤ
  txn_abort w = let (r, s) = L.txn_abort w.db.txn w.lib in (r, record w { lib = s })

  unfoldable pub dbi_open : M L ℤ
  dbi_open w =
      let (r, h, s) = L.dbi_open w.db.txn w.lib in
      (r, record w { db = if eq_ℤ r mdb_success then record w.db { dbi = h } else w.db; lib = s })

  unfoldable pub dbi_close : M L (Unit {0})
  dbi_close w = (tt, record w { lib = L.dbi_close w.db.env w.db.dbi w.lib })

  unfoldable pub put : Bytes → Bytes → M L ℤ
  put k v w = let (r, s) = L.put w.db.txn w.db.dbi k v w.lib in (r, record w { lib = s })

  unfoldable pub del : Bytes → M L ℤ
  del k w = let (r, s) = L.del w.db.txn w.db.dbi k w.lib in (r, record w { lib = s })

  unfoldable pub cursor_open : M L (ℤ × ℕ)
  cursor_open w =
      let (r, h, s) = L.cursor_open w.db.txn w.db.dbi w.lib in ((r, h), record w { lib = s })

  unfoldable pub cursor_get : ℕ → Op → M L (ℤ × Item)
  cursor_get c o w = let (r, i, s) = L.cursor_get c o w.lib in ((r, i), record w { lib = s })

  unfoldable pub cursor_del : ℕ → M L ℤ
  cursor_del c w = let (r, s) = L.cursor_del c w.lib in (r, record w { lib = s })

  -- `env->env = NULL`
  unfoldable pub clear_env : M L (Unit {0})
  clear_env w = (tt, record w { db = record w.db { env = 0 } })
