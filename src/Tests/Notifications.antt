-- ===== src/Tests/Notifications.antt =====
-- The notifications and the client's loop over them at concrete inputs.
use wacs.Prelude.{
  ◌≡◌, ◌≢◌, ◌<◌, ◌≤◌, refl, List, [], ◌∷◌, ◌++◌, ℤ, pos, false, some, length, take, replicate,
  arith, All, ◌⊎◌,
}
use wacs.Layout.{Bytes, last_probe_key_bytes}
use wacs.LogEntries.Scan.{strtomacaddress, scan_bytes, Scanner, scanned}
use wacs.Lmdb.{Item, mdb_success, mdb_map_full}
use wacs.Lmdb.Table.{table_lmdb, table_contract, table, table_put, is_some, on_shelf}
use wacs.Lmdb.Shelf.{key_lt, at_start, items, here_list, lookup, insert}
use wacs.Lmdb.Order.{Ordered, starts_with}
use wacs.Db.Monad.{put, del, txn_begin, cursor_open}
use wacs.Db.Query.{fails}
use wacs.Db.Put.Stores.{IsAtomic}
use wacs.Db.Read.Walk.{from_key}
use wacs.Db.Remove.Outcome.{Removes}
use wacs.Db.Notification.{
  OnNotification, notification_key, put_key, put_or_del, put_notification, get_notification,
  rm_notification, ls_notification,
}
use wacs.Db.Notification.Prefix.{without, count_with}
use wacs.Db.Notification.Results.{rm_notification-Removes}
use wacs.Db.Notification.Store.{
  stored_notification, put_notification-IsAtomic, listed, feed_notes, ls_notification-eq-feed,
  first_value, get_notification-first,
}
use wacs.Client.{WacscConfig, rm_macs}
use wacs.Client.Results.{rm_macs-Removes_first}
use wacs.Tests.Setup.{world, mac1, mac2, past, world-Committed, deletes}

abbrev pad9 : Bytes
pad9 = replicate 9 0

abbrev note1 : Item
note1 = (b'T' ∷ mac1 ++ pad9, b'{' ∷ b'}' ∷ [])

abbrev note2 : Item
note2 = (b'T' ∷ mac2 ++ pad9, b'[' ∷ b']' ∷ [])

abbrev notes : List Item
notes = note1 ∷ note2 ∷ []

-- A log entry under another address, and then a notification.
abbrev mixed : List Item
mixed = (b'L' ∷ mac2 ++ pad9, 9 ∷ 9 ∷ 9 ∷ 9 ∷ []) ∷ note1 ∷ []

notes-Ordered : Ordered notes
unfolding key_lt
notes-Ordered = ((refl, tt), (tt, tt))

notes_long : All (λ (i : Item). 7 ≤ length i.0) notes
notes_long = (omega arith, (omega arith, tt))

notes_small : length notes < 9
notes_small = omega arith

rm_notification-Removes_example :
    Removes
      (table_contract false)
      (notification_key (0 ∷ 236 ∷ []))
      (world false 9 notes)
      (count_with (notification_key (0 ∷ 236 ∷ [])) notes)
      (without (notification_key (0 ∷ 236 ∷ [])) notes)
      notes
      (rm_notification past 9 (0 ∷ 236 ∷ []) 2 (world false 9 notes))
rm_notification-Removes_example =
    rm_notification-Removes (table_contract false) (deletes false) past 9 (0 ∷ 236 ∷ []) 2 notes
      (world false 9 notes) refl (omega arith) notes-Ordered notes_long
      (world-Committed false 9 notes) notes_small

put_fits :
    (put_or_del (put_key pad9 mac1) (b'{' ∷ b'}' ∷ []) (txn_begin (world false 9 [])).1).0
    ≢ mdb_map_full
unfolding put_or_del put del txn_begin table_lmdb table_put is_some on_shelf world table at_start
    items here_list lookup insert
put_fits e = ground (arith, e)

put_notification-IsAtomic_example :
    IsAtomic
      (table_contract false)
      mdb_success
      (stored_notification (put_key pad9 mac1) (b'{' ∷ b'}' ∷ []) [])
      []
      (put_notification pad9 mac1 (b'{' ∷ b'}' ∷ []) (world false 9 []))
put_notification-IsAtomic_example =
    put_notification-IsAtomic (table_contract false) [] pad9 mac1 (b'{' ∷ b'}' ∷ [])
      (world false 9 []) (world-Committed false 9 []) put_fits

begins : (is : List Item) → fails (txn_begin (world false 9 is)).0 ≡ false
unfolding txn_begin table_lmdb world table
begins is = refl

opens : (is : List Item) → fails (cursor_open (txn_begin (world false 9 is)).1).0.0 ≡ false
unfolding cursor_open txn_begin table_lmdb world table
opens is = refl

get_notification-first_example :
    (get_notification [] mac1 (world false 9 mixed)).0.1 ≡ first_value [] mixed
get_notification-first_example =
    get_notification-first (table_contract false) [] mac1 mixed (world false 9 mixed)
      (world-Committed false 9 mixed) (begins mixed) (opens mixed)

abbrev gather : OnNotification (List Bytes)
gather e sa json = (false, json ∷ e)

ls_notification-eq-feed_example :
    ((ls_notification past 9 (some gather) [] (world false 9 notes)).0
      ≡ some (
        mdb_success,
        feed_notes gather
            (listed past (from_key (take 6 (notification_key (replicate 6 0))) notes))
            [],
      ))
    ⊎ ((r : ℤ) × (e' : List Bytes) × (r ≢ mdb_success)
        × ((ls_notification past 9 (some gather) [] (world false 9 notes)).0 ≡ some (r, e')))
ls_notification-eq-feed_example =
    ls_notification-eq-feed (table_contract false) past 9 gather [] notes (world false 9 notes)
      (world-Committed false 9 notes) notes_small

-- Each conversion reads the number 1.
abbrev ones : Scanner
ones b = scanned 1 (b':' ∷ [])

abbrev mac_ones : Bytes
mac_ones = replicate 6 1

ones_read : strtomacaddress ones [] ≡ (pos 6, mac_ones)
unfolding strtomacaddress scan_bytes
ones_read = refl

-- A notification for the address that is read, and one for another.
abbrev two_notes : List Item
two_notes = (b'T' ∷ mac_ones ++ pad9, b'{' ∷ b'}' ∷ []) ∷ (b'T' ∷ replicate 6 2 ++ pad9, []) ∷ []

two_notes-Ordered : Ordered two_notes
unfolding key_lt
two_notes-Ordered = ((refl, tt), (tt, tt))

two_notes_long : All (λ (i : Item). 7 ≤ length i.0) two_notes
two_notes_long = (omega arith, (omega arith, tt))

one_note : count_with (notification_key mac_ones) two_notes ≡ 1
unfolding count_with notification_key starts_with last_probe_key_bytes
one_note = refl

abbrev config2 : WacscConfig
config2 = record { path = []; flags = pos 0; mode = pos 0; mac = []; start = pos 0; finish = pos 0 }

rm_macs-Removes_first_example :
    Removes
      (table_contract false)
      (notification_key mac_ones)
      (world false 9 two_notes)
      (count_with (notification_key mac_ones) two_notes)
      (without (notification_key mac_ones) two_notes)
      two_notes
      (rm_macs ones past 0 9 config2 ([] ∷ [] ∷ []) (pos 0) (world false 9 two_notes))
rm_macs-Removes_first_example =
    rm_macs-Removes_first (table_contract false) (deletes false) ones past 0 9 config2 [] mac_ones
      ([] ∷ []) (pos 0) two_notes (world false 9 two_notes) ones_read refl (omega (arith, one_note))
      two_notes-Ordered two_notes_long (world-Committed false 9 two_notes) (omega arith)
