-- ===== src/Tests/Setup.antt =====
-- The data of the tests.
use wacs.Prelude.{◌≡◌, refl, ℕ, List, [], ◌∷◌, pos, Bool, false}
use wacs.Layout.{Bytes, LogEntry, LogRecord}
use wacs.Lmdb.{Item, mdb_success}
use wacs.Lmdb.Shelf.{committed-at_start}
use wacs.Db.Transaction.{Committed}
use wacs.Lmdb.Table.{table, table_lmdb, table_contract}
use wacs.Db.Monad.{World, DbEnv}
use wacs.Db.Query.{OnLog}
use wacs.Db.Stored.{Entry}

abbrev pub db0 : DbEnv
db0 = record { env = 1; dbi = 1; txn = 1; path = []; flags = pos 0; mode = pos 0; queue = pos 0 }

-- A database with room for a number of items.
unfoldable pub world : (limited : Bool) → ℕ → List Item → World (table_lmdb limited)
unfolding table_lmdb table
world limited room is = record { db = db0; lib = table room is }

abbrev pub mac1 : Bytes
mac1 = 0 ∷ 236 ∷ 10 ∷ 237 ∷ 92 ∷ 85 ∷ []

abbrev pub mac2 : Bytes
mac2 = 2 ∷ 1 ∷ 1 ∷ 1 ∷ 1 ∷ 1 ∷ []

abbrev pub packet : LogEntry
packet = record { device_id = 256; ssi_signal = 46079; sa = mac1 }

abbrev pub entry1 : Entry
entry1 = record {
  sa = mac1;
  dt = 1000;
  entry_data = record { device_id = 1; ssi_signal = 180 };
  key_pad = 0;
  data_pad = 0;
}

abbrev pub entry2 : Entry
entry2 = record {
  sa = mac1;
  dt = 2000;
  entry_data = record { device_id = 1; ssi_signal = 181 };
  key_pad = 0;
  data_pad = 0;
}

abbrev pub entry3 : Entry
entry3 = record {
  sa = mac2;
  dt = 1500;
  entry_data = record { device_id = 2; ssi_signal = 190 };
  key_pad = 0;
  data_pad = 0;
}

abbrev pub entries : List Entry
entries = entry1 ∷ entry2 ∷ entry3 ∷ []

abbrev pub record1 : LogRecord
record1 = record { sa = mac1; dt = 7; device_id = 1; ssi_signal = 180 }

abbrev pub past : Bytes → ℕ → ℕ
past b i = 0

-- A callback that collects the times.
abbrev pub collect : OnLog (List ℕ)
collect e k d = (false, k.dt ∷ e)

pub world-Committed :
    (l : Bool) (room : ℕ) (is : List Item) → Committed (table_contract l) is (world l room is)
unfolding world table table_contract table_lmdb
world-Committed l room is = committed-at_start is is

pub deletes :
    (l : Bool) (c : ℕ) (s : (table_lmdb l).State) → ((table_lmdb l).cursor_del c s).0 ≡ mdb_success
unfolding table_lmdb
deletes l c s = refl
