-- ===== src/Tests/Probes.antt =====
-- The last probes at a concrete input.
use wacs.Prelude.{
  refl, false, List, [], ◌∷◌, ◌++◌, pos, some, map, length, take, replicate, arith, All, ap, ◌<◌,
}
use wacs.Layout.{log_key_bytes}
use wacs.Lmdb.{Item}
use wacs.Lmdb.Table.{table_contract}
use wacs.Lmdb.Shelf.{key_lt}
use wacs.Lmdb.Order.{starts_with}
use wacs.Db.Query.{feed}
use wacs.Db.Stored.{entry_item, entry_key}
use wacs.Db.Read.{read_last_probe, query}
use wacs.Db.Read.Exact.{Yields}
use wacs.Db.Read.Probes.{Probe, IsProbe, item_of, InOrder, IsBefore, IsElsewhere, probes_of}
use wacs.Db.Read.Latest.{read_last_probe_complete}
use wacs.Tests.Setup.{world, mac1, mac2, entries, past, collect, world-Committed}

abbrev before : List Item
before = map entry_item entries

abbrev probes : List Probe
probes = record { sa = mac1; dt = 2000 } ∷ record { sa = mac2; dt = 1500 } ∷ []

-- A notification of the second address.
abbrev others : List Item
others = (b'T' ∷ (mac2 ++ replicate 9 0), b'{' ∷ b'}' ∷ []) ∷ []

abbrev all : List Item
all = before ++ (map item_of probes ++ others)

before-IsBefore : All IsBefore before
unfolding entry_item entry_key log_key_bytes
before-IsBefore = (
  (b'L', _, refl, omega arith),
  ((b'L', _, refl, omega arith), ((b'L', _, refl, omega arith), tt)),
)

probes-IsProbe : All IsProbe probes
probes-IsProbe =
    (record { six = refl; dt_u32 = omega arith }, (record { six = refl; dt_u32 = omega arith }, tt))

probes-InOrder : InOrder probes
unfolding key_lt
probes-InOrder = ((refl, tt), (tt, tt))

others-IsElsewhere : All (IsElsewhere (take 2 mac1)) others
unfolding starts_with
others-IsElsewhere = ((b'T', mac2, replicate 9 0, refl, omega arith, refl, refl), tt)

all_fits : length ((table_contract false).view (world false 9 all).lib).committed < 9
all_fits = omega (arith, ap length (world-Committed false 9 all))

read_last_probe_complete_example :
    Yields
      (read_last_probe past 9
        (some mac1)
        (pos 2)
        (pos 0)
        (pos 0)
        (some collect)
        (some [])
        (world false 9 all)).0
      (feed collect (probes_of (query (some mac1) (pos 2) (pos 0) (pos 0)) (take 2 mac1) probes) [])
read_last_probe_complete_example =
    read_last_probe_complete (table_contract false) past 9 mac1 2 (pos 0) (pos 0) before others
      probes collect [] (world false 9 all) refl (omega arith) before-IsBefore probes-IsProbe
      probes-InOrder others-IsElsewhere (world-Committed false 9 all) all_fits
