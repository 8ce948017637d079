-- ===== src/Threads/Queue.antt =====
-- threads/list.cc: the list of items with keys that the ready queue, the wait queues and the pending
-- interrupts are.
pub mod Order
use cs350project.Prelude.{
  Bool, true, false, if◌then◌else◌, ℤ, pos, ◌+ℤ◌, ◌-ℤ◌, ltb_ℤ, Option, none, some, List, [], ◌∷◌,
  ◌++◌,
}

pub record ListElement : Type 0 where
  pub item : ℤ
  pub key : ℤ

-- `elements` is what `first`, `last` and the links between them hold.
pub record Queue : Type 0 where
  pub elements : List ListElement
  pub size : ℤ

-- The constructor, which leaves `size` as the memory was.
abbrev pub new_list : ℤ → Queue
new_list stray = record { elements = []; size = stray }

unfoldable pub append : ℤ → Queue → Queue
append item q = record {
  elements = q.elements ++ (record { item = item; key = pos 0 } ∷ []);
  size = q.size +ℤ pos 1;
}

unfoldable pub prepend : ℤ → Queue → Queue
prepend item q = record q { elements = record { item = item; key = pos 0 } ∷ q.elements }

unfoldable pub is_empty : Queue → Bool
is_empty q = elim q.elements [ [] ↦ true | (e ∷ es) ↦ false ]

-- The loop of `SortedInsert`, on what follows the element at `ptr`.
abbrev pub insert_after : ListElement → List ListElement → List ListElement
insert_after element [] = element ∷ []
insert_after element (next ∷ rest) =
    let later = insert_after element rest in
    if ltb_ℤ element.key next.key then element ∷ next ∷ rest else next ∷ later

abbrev pub insert_sorted : ListElement → List ListElement → List ListElement
insert_sorted element [] = element ∷ []
insert_sorted element (first ∷ rest) =
    if ltb_ℤ element.key first.key
    then element ∷ first ∷ rest
    else first ∷ insert_after element rest

unfoldable pub sorted_insert : ℤ → ℤ → Queue → Queue
sorted_insert item key q = record q {
  elements = insert_sorted (record { item = item; key = key }) q.elements;
}

-- The first element, or `none` for NULL.
unfoldable pub sorted_remove : Queue → Queue × Option ListElement
sorted_remove q = elim q.elements [
  | [] ↦ (q, none)
  | (e ∷ es) ↦ (record q { elements = es }, some e)
]

unfoldable pub remove : Queue → Queue × Option ListElement
remove q = sorted_remove (record q { size = q.size -ℤ pos 1 })
