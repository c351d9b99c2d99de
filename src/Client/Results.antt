-- ===== src/Client/Results.antt =====
-- What the loops of wacsc.cpp do with the answers of the database.
use mathlib.Core.Path.{subst}
use wacs.Prelude.{
  ℕ, ◌≤◌, ◌<◌, ◌≡◌, ◌≢◌, refl, sym, ℤ, pos, pos_part, Option, some, List, ◌∷◌, inl, inr, arith,
  length, All,
}
use wacs.Layout.{Bytes}
use wacs.LogEntries.Scan.{Scanner, strtomacaddress}
use wacs.Lmdb.{Lmdb, Item, mdb_success}
use wacs.Lmdb.Contract.{Contract}
use wacs.Lmdb.Order.{Ordered}
use wacs.Db.Monad.{World}
use wacs.Db.Transaction.{Committed}
use wacs.Db.Remove.Outcome.{Removes}
use wacs.Db.Notification.{notification_key, rm_notification}
use wacs.Db.Notification.Prefix.{without, count_with}
use wacs.Db.Notification.Results.{rm_notification-Removes}
use wacs.Client.{WacscConfig, rm_macs}

module _ {L : Lmdb} (scan : Scanner) (past : Bytes → ℕ → ℕ) (pad fuel : ℕ) (config : WacscConfig)
    (m : Bytes) (ms : List Bytes) (cnt : ℤ) where
  -- The removal of the first address.
  abbrev first_removal : World L → Option ℤ × World L
  first_removal =
      rm_notification past fuel (strtomacaddress scan m).1 (pos_part (strtomacaddress scan m).0)

  ends_at_first :
      (r : ℤ) (w : World L)
      → (first_removal w).0 ≡ some r
      → r ≢ pos 0
      → rm_macs scan past pad fuel config (m ∷ ms) cnt w ≡ (some r, (first_removal w).1)
  unfolding rm_macs
  ends_at_first r w h ne = ground (arith, h, ne)

  Removes-ends :
      (C : Contract L) (k : Bytes) (n : ℕ) (new old : List Item) (w : World L)
      → 0 < n
      → Removes C k w n new old (first_removal w)
      → Removes C k w n new old (rm_macs scan past pad fuel config (m ∷ ms) cnt w)
  Removes-ends C k n new old w more (inl (o, e)) =
      subst (Removes C k w n new old)
        (sym (ends_at_first (pos n) w o (λ z. ground (arith, more, z)))) (inl (refl, e))
  Removes-ends C k n new old w more (inr (r, ne, why, o, e)) =
      subst (Removes C k w n new old) (sym (ends_at_first r w o ne)) (inr (r, ne, why, refl, e))

-- notificationRm for several addresses, of which the first is whole and has notifications, removes the
-- notifications of the first alone and answers their number, whatever the others are, or a call of the
-- library has failed, the code for it is answered, and nothing has changed; with more fuel than items,
-- over a library whose mdb_cursor_del succeeds and whose items are in key order with keys of at least
-- seven bytes.
pub rm_macs-Removes_first :
    {L : Lmdb} (C : Contract L)
    (deletes : (c : ℕ) (s : L.State) → (L.cursor_del c s).0 ≡ mdb_success) (scan : Scanner)
    (past : Bytes → ℕ → ℕ) (pad fuel : ℕ) (config : WacscConfig) (m sa : Bytes) (ms : List Bytes)
    (cnt : ℤ) (old : List Item) (w : World L)
    → strtomacaddress scan m ≡ (pos 6, sa)
    → length sa ≡ 6
    → 0 < count_with (notification_key sa) old
    → Ordered old
    → All (λ (i : Item). 7 ≤ length i.0) old
    → Committed C old w
    → length old < fuel
    → Removes C
        (notification_key sa)
        w
        (count_with (notification_key sa) old)
        (without (notification_key sa) old)
        old
        (rm_macs scan past pad fuel config (m ∷ ms) cnt w)
rm_macs-Removes_first C deletes scan past pad fuel config m sa ms cnt old w read six more ord long e
      lt =
    let n = count_with (notification_key sa) old in
    let new = without (notification_key sa) old in
    Removes-ends scan past pad fuel config m ms cnt C (notification_key sa) n new old w more (
      subst
        (λ a.
          Removes C (notification_key sa) w n new old
            (rm_notification past fuel a.1 (pos_part a.0) w))
        (sym read)
        (rm_notification-Removes C deletes past fuel sa 6 old w six (omega arith) ord long e lt))
