-- ===== src/Db/Read/Probe.antt =====
-- What readLastProbe delivers.
use wacs.Prelude.{ℕ, ◌<◌, ◌∙◌, Option, some, List, [], ◌∷◌, ℤ, arith, length, All}
use wacs.Layout.{Bytes}
use wacs.Lmdb.{Lmdb, Item}
use wacs.Lmdb.Contract.{Contract}
use wacs.Db.Monad.{World}
use wacs.Db.Query.{OnLog, feed}
use wacs.Db.Loop.{Next}
use wacs.Db.Read.{Query, query, probe_seek_key, read_last_probe_step, read_last_probe}
use wacs.Db.Read.Walk.{from_key, visible_probes, walk-read_last_probe_step, read_from-eq-walk}
use wacs.Db.Read.Exact.{Yields, Yields-intro, Passes}

-- With more fuel than stored items readLastProbe ends. If its code is 0, its callback has been
-- called, in key order and until it asked to stop, on the visible probes of the committed items from
-- the seek key on.
pub read_last_probe-eq-feed :
    {L : Lmdb} (C : Contract L) {E : Type 0} (past : Bytes → ℕ → ℕ) (fuel : ℕ) (sa : Option Bytes)
    (sa_size start finish : ℤ) (f : OnLog E) (e : E) (w : World L)
    → length (C.view w.lib).committed < fuel
    → Yields (read_last_probe past fuel sa sa_size start finish (some f) (some e) w).0 (
        feed f
          (visible_probes past
            (query sa sa_size start finish)
            (from_key (probe_seek_key sa sa_size) (C.view w.lib).committed))
          e)
unfolding read_last_probe
read_last_probe-eq-feed C {E} past fuel sa sa_size start finish f e w lt =
    let q = query sa sa_size start finish in
    let k = probe_seek_key sa sa_size in
    let step : Item → E → Next E = read_last_probe_step past q f in
    let (r, e', p, walked) = read_from-eq-walk C fuel k step e w lt in
    Yields-intro (read_last_probe past fuel sa sa_size start finish (some f) (some e) w).0 r e' _
      (ground (arith, p))
      (λ ok. walked ok ∙ walk-read_last_probe_step past q f (from_key k (C.view w.lib).committed) e)

-- Whatever the database holds, and whatever memory holds past a short record, each probe that
-- readLastProbe delivers passes the filter.
pub visible_probes-Passes :
    (past : Bytes → ℕ → ℕ) (q : Query) (is : List Item)
    → All (λ r. Passes q r) (visible_probes past q is)
unfolding visible_probes
visible_probes-Passes past q [] = tt
visible_probes-Passes past q ((k, v) ∷ is) = ground (arith, visible_probes-Passes past q is)
