-- ===== src/Db/Remove/Matching.antt =====
-- rmLog for an address or a part of one, from its key on.
use mathlib.Core.Path.{subst, ap₂}
use wacs.Prelude.{
  ℕ, ◌<◌, ◌≤◌, suc, zero, ◌-◌, refl, take, replicate, ◌^◌, ◌≡◌, ap, ◌∙◌, sym, ◌⊎◌, some, List, [],
  ◌∷◌, ◌++◌, map, pos, arith, length, All,
}
use wacs.Layout.{Bytes, log_key_bytes, swap32, fill_sa}
use wacs.Lmdb.{Lmdb, Item, mdb_success}
use wacs.Lmdb.Contract.{Contract}
use wacs.Db.Monad.{World}
use wacs.Db.Stored.{Entry, IsEntry, Sorted, IsBehind, entry_item}
use wacs.Db.Transaction.{Committed}
use wacs.Db.Query.{OnLog, feed}
use wacs.Db.Read.{query, read_log}
use wacs.Db.Read.Walk.{from_key}
use wacs.Db.Read.Exact.{Yields, matches}
use wacs.Db.Read.Results.{
  read_log-whole_complete, read_log-partial_complete, clamp_sa_size-small, length-take, take_whole,
  query-LooksFor, query_start, to_u32-small,
}
use wacs.Db.Remove.{rm_log_decide, rm_seek_key, rm_log}
use wacs.Db.Remove.Enter.{IsFilled, enter}
use wacs.Db.Remove.Loop.{removed, left}
use wacs.Db.Remove.Outcome.{until_key, Removes, Removes-same}
use wacs.Db.Remove.Results.{rm_log-Removes}
use wacs.Db.Remove.Whole.{unmatched}

rm_seek_key_filled :
    (pad : ℕ) (s : Bytes) (n t : ℕ)
    → n ≤ 6
    → t < 2 ^ 32
    → rm_seek_key pad (some s) (pos n) (pos t)
      ≡ log_key_bytes pad b'L' (take n s ++ replicate (6 - n) 0) (swap32 t)
unfolding rm_seek_key fill_sa
rm_seek_key_filled pad s n t small fits =
    ap₂ (λ m x. log_key_bytes pad b'L' (take m s ++ replicate (6 - m) 0) (swap32 x))
      (clamp_sa_size-small n small) (to_u32-small t fits)

replicate_zeros : (n : ℕ) → All {A = ℕ} (λ b. b ≡ 0) (replicate n 0)
replicate_zeros zero = tt
replicate_zeros (suc n) = (refl, replicate_zeros n)

length-replicate : (n : ℕ) → length {A = ℕ} (replicate n 0) ≡ n
length-replicate zero = refl
length-replicate (suc n) = ap suc (length-replicate n)

take-IsFilled :
    (s : Bytes) (n : ℕ) → n ≤ 6 → length s ≡ 6 → IsFilled (take n s) (replicate (6 - n) 0)
take-IsFilled s n small six = record {
  six = omega (arith, small, length-take n s (omega (arith, small, six)), length-replicate (6 - n));
  zeros = replicate_zeros (6 - n);
}

take_whole_filled : (s : Bytes) → length s ≡ 6 → take 6 s ++ replicate (6 - 6) 0 ≡ s
take_whole_filled (a ∷ b ∷ c ∷ d ∷ e ∷ f ∷ []) six = refl
take_whole_filled _ six = absurd (omega arith)

module _ {L : Lmdb} (C : Contract L) {E : Type 0}
    (deletes : (c : ℕ) (s : L.State) → (L.cursor_del c s).0 ≡ mdb_success) (past : Bytes → ℕ → ℕ)
    (pad fuel : ℕ) (s : Bytes) (t u : ℕ) (ns : List Entry) (rest : List Item) (f : OnLog E) (x : E)
    (w : World L) (six : length s ≡ 6) (fits : t < 2 ^ 32) (order : (u ≡ 0) ⊎ (t ≤ u))
    (valid : All IsEntry ns) (pads : All (λ n. n.key_pad ≡ pad) ns) (sorted : Sorted ns)
    (behind : All IsBehind rest) (holds : Committed C (map entry_item ns ++ rest) w)
    (enough : length (map entry_item ns ++ rest) < fuel) where
  enough_there : length (C.view w.lib).committed < fuel
  enough_there = subst (λ l. length l < fuel) (sym holds) enough

  rm_log-matches :
      (n : ℕ)
      → n ≤ 6
      → Removes C
          (log_key_bytes pad b'L' (take n s ++ replicate (6 - n) 0) (swap32 t))
          w
          (length (matches (query (some s) (pos n) (pos t) (pos u)) (take n s) ns))
          (map entry_item (unmatched (query (some s) (pos n) (pos t) (pos u)) (take n s) ns)
            ++ rest)
          (map entry_item ns ++ rest)
          (rm_log past pad fuel (some s) (pos n) (pos t) (pos u) w)
  rm_log-matches n small =
      let q = query (some s) (pos n) (pos t) (pos u) in
      let is = map entry_item ns ++ rest in
      let d = rm_log_decide past q in
      let same = rm_seek_key_filled pad s n t small fits in
      let walked =
        enter past q (take n s) (replicate (6 - n) 0) (query-LooksFor s n (pos t) (pos u) small six)
          (take-IsFilled s n small six) pad t fits (query_start s n t u fits order) ns rest valid
          pads sorted behind in
      Removes-same C w is (rm_log past pad fuel (some s) (pos n) (pos t) (pos u) w) same
        (ap (λ k. removed d (from_key k is) 0) same ∙ walked.0)
        (ap (λ k. until_key k is ++ left d (from_key k is)) same ∙ walked.1)
        (rm_log-Removes C deletes past pad fuel (some s) (pos n) (pos t) (pos u) is w holds enough)

  -- On a database of log entries in key order, all stored with the padding byte of rmLog's own key,
  -- followed by items of other kinds, over a library whose mdb_cursor_del succeeds, and with more fuel
  -- than items, readLog and rmLog for a whole address and a range in the right order end. Where the
  -- code of readLog is 0, its callback has been called, until it asked to stop, on the entries of that
  -- address in the range. rmLog answers their number, and exactly they are gone; or a call of the
  -- library has failed, rmLog answers the code for it, and nothing has changed.
  pub rm_log-whole_matches :
      Yields
        (read_log past pad fuel (some s) (pos 6) (pos t) (pos u) (some f) (some x) w).0
        (feed f (matches (query (some s) (pos 6) (pos t) (pos u)) s ns) x)
      × Removes C
          (log_key_bytes pad b'L' s (swap32 t))
          w
          (length (matches (query (some s) (pos 6) (pos t) (pos u)) s ns))
          (map entry_item (unmatched (query (some s) (pos 6) (pos t) (pos u)) s ns) ++ rest)
          (map entry_item ns ++ rest)
          (rm_log past pad fuel (some s) (pos 6) (pos t) (pos u) w)
  rm_log-whole_matches =
      let q = query (some s) (pos 6) (pos t) (pos u) in
      let whole = take_whole s six in
      (
        read_log-whole_complete C past pad fuel s six ns rest valid sorted behind f x w holds
            enough_there t u fits order pads,
        Removes-same C w (map entry_item ns ++ rest)
            (rm_log past pad fuel (some s) (pos 6) (pos t) (pos u) w)
            (ap (λ a. log_key_bytes pad b'L' a (swap32 t)) (take_whole_filled s six))
            (ap (λ p. length (matches q p ns)) whole)
            (ap (λ p. map entry_item (unmatched q p ns) ++ rest) whole)
            (rm_log-matches 6 (omega arith)),
      )

  -- On a database of log entries in key order, all stored with the padding byte of rmLog's own key,
  -- followed by items of other kinds, over a library whose mdb_cursor_del succeeds, and with more fuel
  -- than items, readLog and rmLog for fewer than six bytes of an address and a range in the right
  -- order end. Where the code of readLog is 0, its callback has been called, until it asked to stop,
  -- on the entries in the range whose address begins with those bytes. rmLog, which enters the
  -- database at another key, answers their number, and exactly they are gone; or a call of the library
  -- has failed, rmLog answers the code for it, and nothing has changed.
  pub rm_log-partial_matches :
      (n : ℕ)
      → n < 6
      → Yields
          (read_log past pad fuel (some s) (pos n) (pos t) (pos u) (some f) (some x) w).0
          (feed f (matches (query (some s) (pos n) (pos t) (pos u)) (take n s) ns) x)
        × Removes C
            (log_key_bytes pad b'L' (take n s ++ replicate (6 - n) 0) (swap32 t))
            w
            (length (matches (query (some s) (pos n) (pos t) (pos u)) (take n s) ns))
            (map entry_item (unmatched (query (some s) (pos n) (pos t) (pos u)) (take n s) ns)
              ++ rest)
            (map entry_item ns ++ rest)
            (rm_log past pad fuel (some s) (pos n) (pos t) (pos u) w)
  rm_log-partial_matches n small = (
    read_log-partial_complete C past pad fuel s six ns rest valid sorted behind f x w holds
        enough_there n (pos t) (pos u) small,
    rm_log-matches n (omega (arith, small)),
  )
