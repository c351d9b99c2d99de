-- ===== src/LogEntries/RoundTrip.antt =====
-- A MAC address, or its first bytes, as text and back.
use wacs.Prelude.{
  ℕ, zero, suc, ◌-◌, ◌%◌, ◌<◌, ◌≤◌, ◌^◌, ◌≡◌, refl, ap, ◌∙◌, [], ◌∷◌, ◌++◌, pos, none, some, true,
  take, length, length-append, replicate, ltb, if◌then◌else◌, All, arith,
}
use wacs.Layout.{Bytes, LogEntry}
use wacs.Layout.RoundTrip.{swap16_twice}
use wacs.LogEntries.{hex2, ntoh_log_entry, hton_log_entry}
use wacs.LogEntries.Scan.{
  mactostr, mactostr2, with_colons, scanned, Scanner, scan_bytes, past_colon, scan_none,
  strtomacaddress,
}

-- Bytes in two digits each, with a colon between them.
unfoldable pub joined : Bytes → Bytes
unfolding hex2
joined [] = []
joined (b ∷ p) = let rest = joined p in hex2 b ++ elim p [ [] ↦ [] | _ ∷ _ ↦ b':' ∷ rest ]

joined-one : (b : ℕ) → joined (b ∷ []) ≡ hex2 b ++ []
unfolding joined
joined-one b = refl

joined-more : (b c : ℕ) (p : Bytes) → joined (b ∷ c ∷ p) ≡ hex2 b ++ b':' ∷ joined (c ∷ p)
unfolding joined
joined-more b c p = refl

mactostr-joined :
    (a b c d e f : ℕ) → mactostr (a ∷ b ∷ c ∷ d ∷ e ∷ f ∷ []) ≡ joined (a ∷ b ∷ c ∷ d ∷ e ∷ f ∷ [])
unfolding mactostr joined
mactostr-joined a b c d e f = refl

take_all : (p : Bytes) → take (length p) p ≡ p
take_all [] = refl
take_all (b ∷ p) = ap (λ t. b ∷ t) (take_all p)

append_assoc : (a b c : Bytes) → (a ++ b) ++ c ≡ a ++ (b ++ c)
append_assoc [] b c = refl
append_assoc (x ∷ a) b c = ap (λ t. x ∷ t) (append_assoc a b c)

with_colons-joined : (b : ℕ) (p : Bytes) → with_colons (b ∷ p) ≡ joined (b ∷ p) ++ b':' ∷ []
unfolding with_colons joined hex2
with_colons-joined b [] = refl
with_colons-joined b (c ∷ p) = ap (λ t. hex2 b ++ b':' ∷ t) (with_colons-joined c p)

without_last : (p : Bytes) (b : ℕ) → take (length (p ++ b ∷ []) - 1) (p ++ b ∷ []) ≡ p
without_last p b =
    ap (λ n. take (n - 1) (p ++ b ∷ [])) (length-append p (b ∷ []))
    ∙ ap (λ n. take n (p ++ b ∷ [])) (omega arith)
    ∙ prefix p (b ∷ [])
  where
    prefix : (p q : Bytes) → take (length p) (p ++ q) ≡ p
    prefix [] q = refl
    prefix (x ∷ p) q = ap (λ t. x ∷ t) (prefix p q)

joined_long : (b : ℕ) (p : Bytes) → ltb 1 (length (joined (b ∷ p) ++ b':' ∷ [])) ≡ true
unfolding joined hex2
joined_long b p = ground arith

mactostr2-joined : (b : ℕ) (p : Bytes) → mactostr2 (b ∷ p) (suc (length p)) ≡ joined (b ∷ p)
unfolding mactostr2
mactostr2-joined b p =
    ap (λ t. let r = with_colons t in if ltb 1 (length r) then take (length r - 1) r else r)
      (take_all (b ∷ p))
    ∙ ap (λ (r : Bytes). if ltb 1 (length r) then take (length r - 1) r else r)
        (with_colons-joined b p)
    ∙ rw (joined_long b p) (without_last (joined (b ∷ p)) b':')

not_empty : (n : ℕ) → ltb 0 (suc n) ≡ true
not_empty n = ground arith

mod16 : (n : ℕ) → n < 2 ^ 16 → n % 2 ^ 16 ≡ n
mod16 n h = omega (arith, h)

module _ (scan : Scanner)
    (scan_hex2 : (b : ℕ) (rest : Bytes) → b < 256 → scan (hex2 b ++ rest) ≡ scanned b rest) where
  scan_one :
      (n b : ℕ) (text rest : Bytes)
      → scan text ≡ scanned b rest
      → b < 256
      → past_colon rest ≡ none
      → scan_bytes scan (suc n) text ≡ b ∷ []
  unfolding scan_bytes
  scan_one n b text rest s h c = ground (arith, s, h, c)

  scan_next :
      (n b : ℕ) (text rest t : Bytes)
      → scan text ≡ scanned b rest
      → b < 256
      → past_colon rest ≡ some t
      → scan_bytes scan (suc n) text ≡ b ∷ scan_bytes scan n t
  unfolding scan_bytes
  scan_next n b text rest t s h c = ground (arith, s, h, c)

  no_colon : past_colon [] ≡ none
  unfolding past_colon
  no_colon = refl

  colon : (t : Bytes) → past_colon (b':' ∷ t) ≡ some t
  unfolding past_colon
  colon t = refl

  scan_bytes-joined :
      (n b : ℕ) (p : Bytes)
      → All (λ x. x < 256) (b ∷ p)
      → length p ≤ n
      → scan_bytes scan (suc n) (joined (b ∷ p)) ≡ b ∷ p
  scan_bytes-joined n b [] h k =
      scan_one n b (joined (b ∷ [])) [] (ap scan (joined-one b) ∙ scan_hex2 b [] h.0) h.0 no_colon
  scan_bytes-joined zero b (c ∷ p) h k = absurd (omega arith)
  scan_bytes-joined (suc n) b (c ∷ p) h k =
      scan_next (suc n) b (joined (b ∷ c ∷ p)) (b':' ∷ joined (c ∷ p)) (joined (c ∷ p))
        (ap scan (joined-more b c p) ∙ scan_hex2 b (b':' ∷ joined (c ∷ p)) h.0) h.0
        (colon (joined (c ∷ p)))
      ∙ ap (λ t. b ∷ t) (scan_bytes-joined n c p h.1 (omega (arith, k)))

  strtomacaddress-joined :
      (b : ℕ) (p : Bytes)
      → All (λ x. x < 256) (b ∷ p)
      → length p ≤ 5
      → strtomacaddress scan (joined (b ∷ p))
        ≡ (pos (suc (length p)), (b ∷ p) ++ replicate (5 - length p) 0)
  unfolding strtomacaddress scan_none
  strtomacaddress-joined b p h k =
      ap
        (λ v. (
          if ltb 0 (length v) then pos (length v) else scan_none (scan (joined (b ∷ p))),
          v ++ replicate (6 - length v) 0,
        ))
        (scan_bytes-joined 5 b p h k)
      ∙ rw (not_empty (length p))
          (ap (λ m. (pos (suc (length p)), (b ∷ p) ++ replicate m 0)) (omega arith))

  -- Where `%02x` reads two hex digits as their value, strtomacaddress reads the text of mactostr back:
  -- it answers 6 and the same six bytes.
  pub strtomacaddress-mactostr :
      (a b c d e f : ℕ)
      → All (λ x. x < 256) (a ∷ b ∷ c ∷ d ∷ e ∷ f ∷ [])
      → strtomacaddress scan (mactostr (a ∷ b ∷ c ∷ d ∷ e ∷ f ∷ []))
        ≡ (pos 6, a ∷ b ∷ c ∷ d ∷ e ∷ f ∷ [])
  strtomacaddress-mactostr a b c d e f h =
      ap (λ t. strtomacaddress scan t) (mactostr-joined a b c d e f)
      ∙ strtomacaddress-joined a (b ∷ c ∷ d ∷ e ∷ f ∷ []) h (omega arith)

  -- Where `%02x` reads two hex digits as their value, strtomacaddress reads the text of mactostr2 for
  -- one to six bytes back: it answers their number and stores them, with zeros behind them.
  pub strtomacaddress-mactostr2 :
      (b : ℕ) (p : Bytes)
      → All (λ x. x < 256) (b ∷ p)
      → length p ≤ 5
      → strtomacaddress scan (mactostr2 (b ∷ p) (suc (length p)))
        ≡ (pos (suc (length p)), (b ∷ p) ++ replicate (5 - length p) 0)
  strtomacaddress-mactostr2 b p h k =
      ap (λ t. strtomacaddress scan t) (mactostr2-joined b p) ∙ strtomacaddress-joined b p h k

-- htonLogEntry undoes ntohLogEntry for fields of 16 bits.
pub hton_log_entry-ntoh_log_entry :
    (e : LogEntry)
    → e.device_id < 2 ^ 16
    → e.ssi_signal < 2 ^ 16
    → hton_log_entry (ntoh_log_entry e) ≡ e
unfolding hton_log_entry ntoh_log_entry
hton_log_entry-ntoh_log_entry e h k = λ i. record e {
  device_id = (swap16_twice e.device_id ∙ mod16 e.device_id h) i;
  ssi_signal = (swap16_twice e.ssi_signal ∙ mod16 e.ssi_signal k) i;
}
