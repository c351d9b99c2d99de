-- ===== src/Db/Read/Latest.antt =====
-- Which last probes readLastProbe delivers.
use mathlib.Core.Path.{subst, ap₂}
use wacs.Prelude.{
  ℕ, zero, suc, ◌<◌, ◌≤◌, ◌≡◌, refl, ap, ◌∙◌, some, List, [], ◌∷◌, ◌++◌, map, ℤ, pos, arith, length,
  take, All,
}
use wacs.Layout.{Bytes}
use wacs.Lmdb.{Lmdb, Item}
use wacs.Lmdb.Contract.{Contract}
use wacs.Db.Monad.{World}
use wacs.Db.Query.{OnLog, feed}
use wacs.Db.Read.{query, probe_seek_key, read_last_probe}
use wacs.Db.Read.Walk.{from_key, visible_probes}
use wacs.Db.Read.Exact.{Yields}
use wacs.Db.Read.Results.{query-LooksFor}
use wacs.Db.Read.Probe.{read_last_probe-eq-feed}
use wacs.Db.Read.Probes.{
  Probe, IsProbe, item_of, InOrder, IsBefore, IsElsewhere, probes_of, from_key-before,
  visible-eq-probes_of,
}

seek_key :
    (s : Bytes) (n : ℕ) → n ≤ 6 → length s ≡ 6 → probe_seek_key (some s) (pos n) ≡ b'P' ∷ take n s
unfolding probe_seek_key
seek_key (a ∷ b ∷ c ∷ d ∷ e ∷ f ∷ []) zero h six = refl
seek_key (a ∷ b ∷ c ∷ d ∷ e ∷ f ∷ []) (suc zero) h six = refl
seek_key (a ∷ b ∷ c ∷ d ∷ e ∷ f ∷ []) (suc (suc zero)) h six = refl
seek_key (a ∷ b ∷ c ∷ d ∷ e ∷ f ∷ []) (suc (suc (suc zero))) h six = refl
seek_key (a ∷ b ∷ c ∷ d ∷ e ∷ f ∷ []) (suc (suc (suc (suc zero)))) h six = refl
seek_key (a ∷ b ∷ c ∷ d ∷ e ∷ f ∷ []) (suc (suc (suc (suc (suc zero))))) h six = refl
seek_key (a ∷ b ∷ c ∷ d ∷ e ∷ f ∷ []) (suc (suc (suc (suc (suc (suc zero)))))) h six = refl
seek_key s (suc (suc (suc (suc (suc (suc (suc n))))))) h six = absurd (omega (arith, h))
seek_key _ n h six = absurd (omega arith)

-- On a database of items that stand before the last probes, as log entries do, of last probes in the
-- order of their addresses, and of items behind them for addresses that do not begin with the given
-- bytes, and with more fuel than items, readLastProbe for up to six bytes of an address ends. If its
-- code is 0, its callback has been called, until it asked to stop, on exactly the last probes whose
-- address begins with those bytes and whose time is in the range, in the order of their addresses.
pub read_last_probe_complete :
    {L : Lmdb} (C : Contract L) {E : Type 0} (past : Bytes → ℕ → ℕ) (fuel : ℕ) (s : Bytes) (n : ℕ)
    (start finish : ℤ) (bs rest : List Item) (ns : List Probe) (f : OnLog E) (e : E) (w : World L)
    → length s ≡ 6
    → n ≤ 6
    → All IsBefore bs
    → All IsProbe ns
    → InOrder ns
    → All (IsElsewhere (take n s)) rest
    → (C.view w.lib).committed ≡ bs ++ (map item_of ns ++ rest)
    → length (C.view w.lib).committed < fuel
    → Yields
        (read_last_probe past fuel (some s) (pos n) start finish (some f) (some e) w).0
        (feed f (probes_of (query (some s) (pos n) start finish) (take n s) ns) e)
read_last_probe_complete C past fuel s n start finish bs rest ns f e w six small before valid order
      other holds enough =
    let q = query (some s) (pos n) start finish in
    let p = take n s in
    let looks = query-LooksFor s n start finish small six in
    subst (Yields (read_last_probe past fuel (some s) (pos n) start finish (some f) (some e) w).0)
      (ap₂ (λ k is. feed f (visible_probes past q (from_key k is)) e) (seek_key s n small six) holds
        ∙ ap (λ l. feed f l e)
            (ap (visible_probes past q)
                (from_key-before past q p looks bs (map item_of ns ++ rest) before)
              ∙ visible-eq-probes_of past q p looks ns rest valid order other))
      (read_last_probe-eq-feed C past fuel (some s) (pos n) start finish f e w enough)
