-- ===== src/Db/Remove/Whole.antt =====
-- rmLog, from the first entry of an address or of a part of one on, removes what readLog for the same
-- arguments delivers, and nothing else.
use wacs.Prelude.{
  ℕ, suc, ◌+◌, ◌≤◌, ◌==◌, ◌≡◌, refl, ap, ◌∙◌, sym, true, false, not, ◌&&◌, ◌⊎◌, List, [], ◌∷◌, ◌++◌,
  map, pos, arith, length, ltb_ℤ, if◌then◌else◌, Bool-cases, inl, inr, All, length-append,
}
use wacs.Layout.{Bytes, log_key_bytes, log_data_bytes, le_bytes, swap32, tag_at, byte_at}
use wacs.Lmdb.{Item}
use wacs.Lmdb.Shelf.{key_lt}
use wacs.Lmdb.Order.{starts_with}
use wacs.Db.Stored.{
  Entry, IsEntry, Sorted, IsBehind, entry_key, entry_item, log_key_of-entry_key, tag_at-entry_key,
}
use wacs.Db.Read.{Query}
use wacs.Db.Read.Walk.{from_key}
use wacs.Db.Read.Exact.{matches}
use wacs.Db.Read.Complete.{LooksFor, All-map, in_range, no_match_past}
use wacs.Db.Read.Whole.{none_after_late}
use wacs.Db.Remove.{Action, leave, skip, remove, rm_log_decide}
use wacs.Db.Remove.Loop.{removed, left, list_leaves, list_skips, list_removes}
use wacs.Db.Remove.Outcome.{until_key}

-- The entries that do not match.
unfoldable pub unmatched : Query → Bytes → List Entry → List Entry
unfolding starts_with
unmatched q p [] = []
unmatched q p (n ∷ ns) =
    let rest = unmatched q p ns in if starts_with p n.sa && in_range q n.dt then rest else n ∷ rest

unmatched-all :
    (q : Query) (p : Bytes) (ns : List Entry) → matches q p ns ≡ [] → unmatched q p ns ≡ ns
unfolding unmatched matches
unmatched-all q p [] h = refl
unmatched-all q p (n ∷ ns) h = ground (arith, h, unmatched-all q p ns)

-- What rmLog does with an entry, by its fields.
unfoldable choice : Query → Bytes → Entry → Action
choice q p n =
    if not (starts_with p n.sa)
    then leave
    else if ltb_ℤ q.finish (pos n.dt)
    then (if length p == 6 then leave else skip)
    else if ltb_ℤ (pos n.dt) q.start
    then skip
    else remove

module _ (q : Query) (p : Bytes) (n : Entry) where
  choice_misses : starts_with p n.sa ≡ false → choice q p n ≡ leave
  unfolding choice
  choice_misses miss = ground (arith, miss)

  choice_late : ltb_ℤ q.finish (pos n.dt) ≡ true → (length p == 6) ≡ true → choice q p n ≡ leave
  unfolding choice
  choice_late late whole = ground (arith, late, whole)

  choice_late_partial :
      starts_with p n.sa ≡ true
      → ltb_ℤ q.finish (pos n.dt) ≡ true
      → (length p == 6) ≡ false
      → choice q p n ≡ skip
  unfolding choice
  choice_late_partial hit late part = ground (arith, hit, late, part)

  choice_early :
      starts_with p n.sa ≡ true
      → ltb_ℤ q.finish (pos n.dt) ≡ false
      → ltb_ℤ (pos n.dt) q.start ≡ true
      → choice q p n ≡ skip
  unfolding choice
  choice_early hit soon early = ground (arith, hit, soon, early)

  choice_matches :
      starts_with p n.sa ≡ true
      → ltb_ℤ q.finish (pos n.dt) ≡ false
      → ltb_ℤ (pos n.dt) q.start ≡ false
      → choice q p n ≡ remove
  unfolding choice
  choice_matches hit soon in_time = ground (arith, hit, soon, in_time)

length-entry_key : (n : Entry) → IsEntry n → length (entry_key n) ≡ 16
unfolding entry_key log_key_bytes le_bytes
length-entry_key n v =
    ap suc (length-append n.sa (n.key_pad ∷ le_bytes 8 (swap32 n.dt)) ∙ omega (arith, v.six))

length-entry_item : (n : Entry) → length (entry_item n).1 ≡ 4
unfolding entry_item log_data_bytes le_bytes
length-entry_item n = refl

-- No item behind the log entries is removed, nor is any walked past.
module _ (past : Bytes → ℕ → ℕ) (q : Query) where
  behind_stays :
      (i : Item) → IsBehind i → (rm_log_decide past q i ≡ leave) ⊎ (rm_log_decide past q i ≡ skip)
  unfolding rm_log_decide tag_at byte_at
  behind_stays (k, v) (t, r, e, above) = ground (arith, e, above)

  pub behind_kept :
      (is : List Item) (n : ℕ)
      → All IsBehind is
      → (removed (rm_log_decide past q) is n ≡ n) × (left (rm_log_decide past q) is ≡ is)
  unfolding removed left
  behind_kept [] n h = (refl, refl)
  behind_kept (i ∷ is) n h = elim (behind_stays i h.0) [
    | inl stop_here ↦ list_leaves (rm_log_decide past q) i is n stop_here
    | inr on ↦
        let step = list_skips (rm_log_decide past q) i is n on in
        let rest = behind_kept is n h.1 in (step.0 ∙ rest.0, step.1 ∙ ap (λ t. i ∷ t) rest.1)
  ]

pub until_from : (k : Bytes) (is : List Item) → until_key k is ++ from_key k is ≡ is
unfolding until_key from_key
until_from k [] = refl
until_from k ((j, v) ∷ is) = ground (arith, until_from k is)

module _ (past : Bytes → ℕ → ℕ) (q : Query) (p : Bytes) (looks : LooksFor q p)
    (short : length p ≤ 6) (pad : ℕ) where
  decide_entry : (n : Entry) → IsEntry n → rm_log_decide past q (entry_item n) ≡ choice q p n
  unfolding rm_log_decide choice entry_item
  decide_entry n v = ground (
    arith,
    log_key_of-entry_key past v,
    tag_at-entry_key past v,
    looks.size,
    looks.differs n.sa,
    length-entry_key n v,
    length-entry_item n,
  )

  -- From entries on that are not below the address.
  pub walk_on :
      (ns : List Entry) (rest : List Item) (c : ℕ)
      → All IsEntry ns
      → All (λ n. n.key_pad ≡ pad) ns
      → Sorted ns
      → All IsBehind rest
      → All (λ n. key_lt (entry_key n) (b'L' ∷ p) ≡ false) ns
      → (removed (rm_log_decide past q) (map entry_item ns ++ rest) c ≡ c + length (matches q p ns))
        × (left (rm_log_decide past q) (map entry_item ns ++ rest)
            ≡ map entry_item (unmatched q p ns) ++ rest)
  unfolding matches unmatched
  walk_on [] rest c valid pads sorted behind above =
      let kept = behind_kept past q rest c behind in (kept.0 ∙ omega arith, kept.1)
  walk_on (n ∷ ns) rest c valid pads sorted behind above =
      let i = entry_item n in
      let is = map entry_item ns ++ rest in
      let d = rm_log_decide past q in
      let chosen = decide_entry n valid.0 in
      elim (Bool-cases (starts_with p n.sa)) [
        | inr miss ↦
            let tail = no_match_past q p n ns short above.0 miss valid.0 valid.1 sorted.0 in
            let stays = list_leaves d i is c (chosen ∙ choice_misses q p n miss) in
            (
              stays.0 ∙ ground (arith, miss, tail),
              stays.1 ∙ ground (arith, miss, tail, unmatched-all q p ns tail),
            )
        | inl hit ↦ elim (Bool-cases (ltb_ℤ q.finish (pos n.dt))) [
          | inl late ↦ elim (Bool-cases (length p == 6)) [
            | inl whole ↦
                let tail =
                  none_after_late q p n ns (ground (arith, whole)) above.0 hit late valid.0 valid.1
                    (All-map (λ m e. pads.0 ∙ sym e) ns pads.1) sorted.0 in
                let stays = list_leaves d i is c (chosen ∙ choice_late q p n late whole) in
                (
                  stays.0 ∙ ground (arith, hit, late, tail),
                  stays.1 ∙ ground (arith, hit, late, tail, unmatched-all q p ns tail),
                )
            | inr part ↦
                let ih = walk_on ns rest c valid.1 pads.1 sorted.1 behind above.1 in
                let on = list_skips d i is c (chosen ∙ choice_late_partial q p n hit late part) in
                (
                  on.0 ∙ ih.0 ∙ ground (arith, hit, late),
                  on.1 ∙ ap (λ t. i ∷ t) ih.1 ∙ ground (arith, hit, late),
                )
          ]
          | inr soon ↦ elim (Bool-cases (ltb_ℤ (pos n.dt) q.start)) [
            | inl early ↦
                let ih = walk_on ns rest c valid.1 pads.1 sorted.1 behind above.1 in
                let on = list_skips d i is c (chosen ∙ choice_early q p n hit soon early) in
                (
                  on.0 ∙ ih.0 ∙ ground (arith, hit, soon, early),
                  on.1 ∙ ap (λ t. i ∷ t) ih.1 ∙ ground (arith, hit, soon, early),
                )
            | inr in_time ↦
                let ih = walk_on ns rest (c + 1) valid.1 pads.1 sorted.1 behind above.1 in
                let gone = list_removes d i is c (chosen ∙ choice_matches q p n hit soon in_time) in
                (
                  gone.0 ∙ ih.0 ∙ ground (arith, hit, soon, in_time),
                  gone.1 ∙ ih.1 ∙ ground (arith, hit, soon, in_time),
                )
          ]
        ]
      ]
