-- ===== src/Lmdb/Shelf.antt =====
-- The abstract view of the library: what is committed, and the open transaction as a zipper, the
-- items before the cursor, the item under it and the items behind it, in key order.
use wacs.Prelude.{
  ◌≡◌, refl, Bool, true, false, ◌&&◌, ◌||◌, Option, none, some, List, [], ◌∷◌, ◌++◌, ltb, ◌==◌,
  if◌then◌else◌,
}
use wacs.Layout.{Bytes}
use wacs.Lmdb.Defs.{Item}

-- Keys are ordered by their bytes, and a prefix comes first.
unfoldable pub key_lt : Bytes → Bytes → Bool
key_lt a [] = false
key_lt [] (b ∷ bs) = true
key_lt (a ∷ as') (b ∷ bs) = ltb a b || ((a == b) && key_lt as' bs)

pub record Shelf : Type 0 where
  pub committed : List Item
  pub before : List Item
  pub here : Option Item
  pub ahead : List Item

unfoldable pub here_list : Option Item → List Item
here_list none = []
here_list (some i) = i ∷ []

-- All items of the open transaction.
unfoldable pub items : Shelf → List Item
unfolding here_list
items s = s.before ++ (here_list s.here ++ s.ahead)

-- The cursor on the first item.
unfoldable pub at_start : List Item → List Item → Shelf
at_start c [] = record { committed = c; before = []; here = none; ahead = [] }
at_start c (i ∷ is) = record { committed = c; before = []; here = some i; ahead = is }

unfoldable pub cons_before : Item → Shelf → Shelf
cons_before i s = record s { before = i ∷ s.before }

-- MDB_SET_RANGE: the first item whose key is not below the given one.
unfoldable pub seek : Bytes → List Item → List Item → Shelf
unfolding at_start cons_before key_lt
seek k c [] = at_start c []
seek k c ((j, v) ∷ is) =
    let rest = cons_before (j, v) (seek k c is) in
    if key_lt j k then rest else at_start c ((j, v) ∷ is)

-- MDB_NEXT
unfoldable pub advance : Shelf → Shelf
unfolding here_list
advance s = elim s.ahead [
  | [] ↦ record s { before = s.before ++ here_list s.here; here = none }
  | i ∷ is ↦ record s { before = s.before ++ here_list s.here; here = some i; ahead = is }
]

-- mdb_cursor_del: MDB_NEXT then goes to the item behind the removed one.
unfoldable pub remove_here : Shelf → Shelf
remove_here s = record s { here = none }

-- mdb_put: replace the value, or insert at the place of the key.
unfoldable pub insert : Bytes → Bytes → List Item → List Item
unfolding key_lt
insert k v [] = (k, v) ∷ []
insert k v ((j, w) ∷ is) =
    if key_lt j k
    then (j, w) ∷ insert k v is
    else if key_lt k j
    then (k, v) ∷ (j, w) ∷ is
    else (k, v) ∷ is

-- mdb_del
unfoldable pub erase : Bytes → List Item → List Item
unfolding key_lt
erase k [] = []
erase k ((j, w) ∷ is) = if key_lt j k || key_lt k j then (j, w) ∷ erase k is else is

unfoldable pub lookup : Bytes → List Item → Option Bytes
unfolding key_lt
lookup k [] = none
lookup k ((j, w) ∷ is) = if key_lt j k || key_lt k j then lookup k is else some w

pub items-at_start : (c is : List Item) → items (at_start c is) ≡ is
unfolding items at_start here_list
items-at_start c [] = refl
items-at_start c (i ∷ is) = refl

pub committed-at_start : (c is : List Item) → (at_start c is).committed ≡ c
unfolding at_start
committed-at_start c [] = refl
committed-at_start c (i ∷ is) = refl
