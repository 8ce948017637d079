-- ===== src/Table.antt =====
-- `Table` of userprog/addrspace.cc: a table of pointers whose free slots a bitmap keeps.  The lock
-- around its bitmap is left out: each operation is one step.
pub mod Laws
mod Tests
use cs350project.Prelude.{
  ℕ, ◌&&◌, Bool, true, false, ltb, eqb_ℤ, if◌then◌else◌, ℤ, pos, negsuc, minus_one, in_range,
  Option, none, some, List, set, get_or,
}
use cs350project.Bitmap.{BitMap, new_bitmap, find, test, clear}

-- `elements` is the field `table`; a pointer is a number, and 0 is the null pointer.
pub record Table : Type 0 where
  pub map : BitMap
  pub elements : List ℕ
  pub size : ℕ

-- Over fresh memory for the bitmap's words and for the elements.
unfoldable pub new_table : List ℕ → List ℕ → ℕ → Table
new_table words fresh s = record { map = new_bitmap words s; elements = fresh; size = s }

-- The element in slot `i`, given the bitmap's answer; `none` is a failed ASSERT of the bitmap.
abbrev pub element : Table → ℕ → Option Bool → Option ℕ
element t i none = none
element t i (some true) = some (get_or t.elements i 0)
element t i (some false) = some 0

unfoldable pub get : Table → ℤ → Option ℕ
get t (negsuc i) = some 0
get t (pos i) = if ltb i t.size then element t i (test t.map (pos i)) else some 0

abbrev pub stored : Table → ℕ → BitMap × ℤ → Table × ℤ
stored t f (map, negsuc n) = (record t { map = map }, negsuc n)
stored t f (map, pos i) = (record t { map = map; elements = set t.elements i f }, pos i)

unfoldable pub put : Table → ℕ → Table × ℤ
put t f = stored t f (find t.map)

-- The slot `i` once the bitmap has freed it.
abbrev pub emptied : Table → ℕ → Option BitMap → Option (Table × ℕ)
emptied t i none = none
emptied t i (some map) =
    some (record t { map = map; elements = set t.elements i 0 }, get_or t.elements i 0)

abbrev pub removed : Table → ℕ → Option Bool → Option (Table × ℕ)
removed t i none = none
removed t i (some false) = some (t, 0)
removed t i (some true) = emptied t i (clear t.map (pos i))

unfoldable pub remove : Table → ℤ → Option (Table × ℕ)
remove t (negsuc i) = some (t, 0)
remove t (pos i) = if ltb i t.size then removed t i (test t.map (pos i)) else some (t, 0)
