-- ===== src/Db/Read/Results.antt =====
-- What a caller of readLog gets from a database that putLog and putLogEntries filled.
use mathlib.Core.Path.{ap₂, subst}
use wacs.Prelude.{
  ◌⊎◌, ℕ, zero, suc, ◌<◌, ◌≤◌, ◌^◌, ◌≡◌, refl, ap, ◌∙◌, sym, not, some, List, [], ◌∷◌, ◌++◌, map, ℤ,
  pos, arith, length, take, All,
}
use wacs.Layout.{Bytes, log_key_bytes, swap32, to_u32, clamp_sa_size}
use wacs.Lmdb.{Lmdb, Item}
use wacs.Lmdb.Contract.{Contract}
use wacs.Lmdb.Order.{starts_with}
use wacs.Db.Monad.{World}
use wacs.Db.Query.{time_range, OnLog, feed, sa_differs, bytes_eq}
use wacs.Db.Stored.{Entry, IsEntry, Sorted, IsBehind, entry_item, bytes_eq-take}
use wacs.Db.Read.{query, log_seek_key, read_log}
use wacs.Db.Read.Walk.{from_key, visible_logs}
use wacs.Db.Read.Exact.{Yields, matches, read_log-eq-feed}
use wacs.Db.Read.Complete.{LooksFor, visible-eq-matches}
use wacs.Db.Read.Whole.{visible-eq-matches_whole}

take-append : (p y : Bytes) → take (length p) (p ++ y) ≡ p
take-append [] y = refl
take-append (b ∷ p) y = ap (λ t. b ∷ t) (take-append p y)

pub length-take : (n : ℕ) (s : Bytes) → n ≤ length s → length (take n s) ≡ n
length-take zero s h = refl
length-take (suc n) [] h = absurd (omega arith)
length-take (suc n) (b ∷ s) h = ap suc (length-take n s (omega arith))

pub clamp_sa_size-small : (n : ℕ) → n ≤ 6 → clamp_sa_size (pos n) ≡ n
unfolding clamp_sa_size
clamp_sa_size-small n h = ground arith

sa_differs-starts_with :
    (s x : Bytes) (n : ℕ) → n ≤ length s → sa_differs (some s) n x ≡ not (starts_with (take n s) x)
unfolding sa_differs
sa_differs-starts_with s x n h =
    ap (λ m. not (bytes_eq (take m x) (take n s))) (sym (length-take n s h))
    ∙ ap not (bytes_eq-take (take n s) x)

pub query-LooksFor :
    (s : Bytes) (n : ℕ) (start finish : ℤ)
    → n ≤ 6
    → length s ≡ 6
    → LooksFor (query (some s) (pos n) start finish) (take n s)
unfolding query
query-LooksFor s n start finish h six = record {
  size = clamp_sa_size-small n h ∙ sym (length-take n s (omega arith));
  differs = λ x.
      ap (λ m. sa_differs (some s) m x) (clamp_sa_size-small n h)
      ∙ sa_differs-starts_with s x n (omega arith);
}

seek_key_partial :
    (pad : ℕ) (s : Bytes) (n : ℕ) (start : ℤ)
    → n < 6
    → length s ≡ 6
    → log_seek_key pad (some s) (pos n) start ≡ b'L' ∷ take n s
unfolding log_seek_key
seek_key_partial pad (a ∷ b ∷ c ∷ d ∷ e ∷ f ∷ []) zero start h six = refl
seek_key_partial pad (a ∷ b ∷ c ∷ d ∷ e ∷ f ∷ []) (suc zero) start h six = refl
seek_key_partial pad (a ∷ b ∷ c ∷ d ∷ e ∷ f ∷ []) (suc (suc zero)) start h six = refl
seek_key_partial pad (a ∷ b ∷ c ∷ d ∷ e ∷ f ∷ []) (suc (suc (suc zero))) start h six = refl
seek_key_partial pad (a ∷ b ∷ c ∷ d ∷ e ∷ f ∷ []) (suc (suc (suc (suc zero)))) start h six = refl
seek_key_partial pad (a ∷ b ∷ c ∷ d ∷ e ∷ f ∷ []) (suc (suc (suc (suc (suc zero))))) start h six =
    refl
seek_key_partial pad _ _ start h six = absurd (omega arith)

seek_key_whole :
    (pad : ℕ) (s : Bytes) (start : ℤ)
    → length s ≡ 6
    → log_seek_key pad (some s) (pos 6) start ≡ log_key_bytes pad b'L' s (swap32 (to_u32 start))
unfolding log_seek_key
seek_key_whole pad (a ∷ b ∷ c ∷ d ∷ e ∷ f ∷ []) start six = refl
seek_key_whole pad _ start six = absurd (omega arith)

-- A range in the right order keeps its start.
time_range_start :
    (t u : ℕ) → t < 2 ^ 32 → (u ≡ 0) ⊎ (t ≤ u) → (time_range (pos t) (pos u)).0 ≡ pos t
unfolding time_range
time_range_start t u small order = ground arith

pub query_start :
    (s : Bytes) (n t u : ℕ)
    → t < 2 ^ 32
    → (u ≡ 0) ⊎ (t ≤ u)
    → (query (some s) (pos n) (pos t) (pos u)).start ≡ pos t
unfolding query
query_start s n t u small order = time_range_start t u small order

pub to_u32-small : (t : ℕ) → t < 2 ^ 32 → to_u32 (pos t) ≡ t
unfolding to_u32
to_u32-small t h = omega arith

pub take_whole : (s : Bytes) → length s ≡ 6 → take 6 s ≡ s
take_whole (a ∷ b ∷ c ∷ d ∷ e ∷ f ∷ []) h = refl
take_whole _ h = absurd (omega arith)

pub query-LooksFor_whole :
    (s : Bytes) (start finish : ℤ) → length s ≡ 6 → LooksFor (query (some s) (pos 6) start finish) s
query-LooksFor_whole s start finish six =
    subst (LooksFor (query (some s) (pos 6) start finish)) (take_whole s six)
      (query-LooksFor s 6 start finish (omega arith) six)

module _ {L : Lmdb} (C : Contract L) {E : Type 0} (past : Bytes → ℕ → ℕ) (pad fuel : ℕ) (s : Bytes)
    (six : length s ≡ 6) (ns : List Entry) (rest : List Item) (valid : All IsEntry ns)
    (sorted : Sorted ns) (behind : All IsBehind rest) (f : OnLog E) (e : E) (w : World L)
    (holds : (C.view w.lib).committed ≡ map entry_item ns ++ rest)
    (enough : length (C.view w.lib).committed < fuel) where
  -- On a database of log entries in key order, followed by items of other kinds, and with more fuel
  -- than items, readLog for fewer than six bytes of an address ends. If its code is 0, its callback
  -- has been called, until it asked to stop, on exactly the entries whose address begins with those
  -- bytes and whose time is in the range, in key order.
  pub read_log-partial_complete :
      (n : ℕ) (start finish : ℤ)
      → n < 6
      → Yields
          (read_log past pad fuel (some s) (pos n) start finish (some f) (some e) w).0
          (feed f (matches (query (some s) (pos n) start finish) (take n s) ns) e)
  read_log-partial_complete n start finish h =
      let q = query (some s) (pos n) start finish in
      subst (Yields (read_log past pad fuel (some s) (pos n) start finish (some f) (some e) w).0)
        (ap₂ (λ k is. feed f (visible_logs past q (from_key k is)) e)
            (seek_key_partial pad s n start h six) holds
          ∙ ap (λ l. feed f l e)
              (visible-eq-matches past q (take n s)
                (query-LooksFor s n start finish (omega arith) six)
                (omega (arith, length-take n s (omega arith))) ns rest valid sorted behind))
        (read_log-eq-feed C past pad fuel (some s) (pos n) start finish f e w enough)

  -- On a database of log entries in key order, followed by items of other kinds, all keys stored with
  -- the padding byte of readLog's own key, and with more fuel than items, readLog for a whole address
  -- and a range in the right order ends. If its code is 0, its callback has been called, until it
  -- asked to stop, on exactly the entries of that address in the range, in key order.
  pub read_log-whole_complete :
      (t u : ℕ)
      → t < 2 ^ 32
      → (u ≡ 0) ⊎ (t ≤ u)
      → All (λ n. n.key_pad ≡ pad) ns
      → Yields
          (read_log past pad fuel (some s) (pos 6) (pos t) (pos u) (some f) (some e) w).0
          (feed f (matches (query (some s) (pos 6) (pos t) (pos u)) s ns) e)
  read_log-whole_complete t u small order pads =
      let q = query (some s) (pos 6) (pos t) (pos u) in
      subst (Yields (read_log past pad fuel (some s) (pos 6) (pos t) (pos u) (some f) (some e) w).0)
        (ap₂ (λ k is. feed f (visible_logs past q (from_key k is)) e)
            (seek_key_whole pad s (pos t) six
              ∙ ap (λ x. log_key_bytes pad b'L' s (swap32 x)) (to_u32-small t small))
            holds
          ∙ ap (λ l. feed f l e)
              (visible-eq-matches_whole past q s (query-LooksFor_whole s (pos t) (pos u) six) six
                pad t ns rest small (query_start s 6 t u small order) valid pads sorted behind))
        (read_log-eq-feed C past pad fuel (some s) (pos 6) (pos t) (pos u) f e w enough)
