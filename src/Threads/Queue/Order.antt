-- ===== src/Threads/Queue/Order.antt =====
-- First in, first out for `Append` and `Remove`, and the order of the keys for `SortedInsert`.
use cs350project.Prelude.{
  ℕ, zero, suc, length, ◌≡◌, refl, sym, ap, subst, ◌∙◌, true, false, if◌then◌else◌, ℤ, pos, negsuc,
  ltb_ℤ, eqb_ℤ, eqb_ℤ_iff, Option, none, some, List, [], ◌∷◌, ◌++◌, arith, Bool-cases, inl, inr,
  map,
}
use mathlib.Core.List.{append-nil, append_assoc, map-append}
use cs350project.Threads.Queue.{
  ListElement, Queue, append, insert_after, insert_sorted, sorted_insert, sorted_remove, remove,
}

abbrev pub items : Queue → List ℤ
items q = map (λ (e : ListElement). e.item) q.elements

-- Each key is at most the next one.
abbrev pub Ascending : List ListElement → Type 0
Ascending [] = Unit
Ascending (e ∷ []) = Unit
Ascending (e ∷ f ∷ es) = (ltb_ℤ f.key e.key ≡ false) × Ascending (f ∷ es)

lt_asymm : (a b : ℤ) → ltb_ℤ a b ≡ true → ltb_ℤ b a ≡ false
lt_asymm a b h = ground (arith, h)

larger : (a b : ℤ) → ltb_ℤ a b ≡ true → eqb_ℤ b a ≡ false
larger (pos a) (pos b) h = ground arith
larger (pos a) (negsuc b) h = refl
larger (negsuc a) (pos b) h = refl
larger (negsuc a) (negsuc b) h = ground arith

still : (a b c : ℤ) → ltb_ℤ a b ≡ true → ltb_ℤ c b ≡ false → ltb_ℤ a c ≡ true
still a b c h le = ground arith

insert_after-Ascending :
    (e first : ListElement) (es : List ListElement)
    → ltb_ℤ e.key first.key ≡ false
    → Ascending (first ∷ es)
    → Ascending (first ∷ insert_after e es)
insert_after-Ascending e first [] h asc = (h, tt)
insert_after-Ascending e first (f ∷ es) h (le, asc) = elim (Bool-cases (ltb_ℤ e.key f.key)) [
  | inl before ↦ rw before (h, (lt_asymm e.key f.key before, asc))
  | inr after ↦ rw after (le, insert_after-Ascending e f es after asc)
]

insert_sorted-Ascending :
    (e : ListElement) (es : List ListElement) → Ascending es → Ascending (insert_sorted e es)
insert_sorted-Ascending e [] asc = tt
insert_sorted-Ascending e (f ∷ es) asc = elim (Bool-cases (ltb_ℤ e.key f.key)) [
  | inl before ↦ rw before (lt_asymm e.key f.key before, asc)
  | inr after ↦ rw after (insert_after-Ascending e f es after asc)
]

-- `SortedInsert` into a list with its keys in ascending order keeps them in ascending order.
pub sorted_insert-Ascending :
    (item key : ℤ) (q : Queue)
    → Ascending q.elements
    → Ascending ((sorted_insert item key q).elements)
unfolding sorted_insert
sorted_insert-Ascending item key q asc = insert_sorted-Ascending _ q.elements asc

-- The items with one key, in their order.
abbrev pub with_key : ℤ → List ListElement → List ℤ
with_key k [] = []
with_key k (e ∷ es) = let rest = with_key k es in if eqb_ℤ e.key k then e.item ∷ rest else rest

-- The items with a key after another item was added at the end of its key's items.
abbrev pub joined : ListElement → ℤ → List ℤ → List ℤ
joined e k items = if eqb_ℤ e.key k then items ++ (e.item ∷ []) else items

none_smaller :
    (k : ℤ) (f : ListElement) (es : List ListElement)
    → ltb_ℤ k f.key ≡ true
    → Ascending (f ∷ es)
    → with_key k (f ∷ es) ≡ []
none_smaller k f [] lt asc = ground (arith, lt, larger k f.key lt)
none_smaller k f (g ∷ es) lt (le, asc) =
    ground (arith, none_smaller k g es (still k f.key g.key lt le) asc, larger k f.key lt)

joined-∷ :
    (e f : ListElement) (k : ℤ) (es : List ListElement) (tail : List ListElement)
    → with_key k tail ≡ joined e k (with_key k es)
    → with_key k (f ∷ tail) ≡ joined e k (with_key k (f ∷ es))
joined-∷ e f k es tail h = ground (arith, h)

joined_first :
    (e f : ListElement) (k : ℤ) (es : List ListElement)
    → ltb_ℤ e.key f.key ≡ true
    → Ascending (f ∷ es)
    → with_key k (e ∷ f ∷ es) ≡ joined e k (with_key k (f ∷ es))
joined_first e f k es lt asc = elim (Bool-cases (eqb_ℤ e.key k)) [
  | inl same ↦
      let key : e.key ≡ k = (eqb_ℤ_iff e.key k).0 same in
      let smaller : ltb_ℤ k f.key ≡ true = subst (λ k. ltb_ℤ k f.key ≡ true) key lt in
      let empty = none_smaller k f es smaller asc in ground (arith, same, empty)
  | inr other ↦ rw other
]

insert_after-with_key :
    (e first : ListElement) (k : ℤ) (es : List ListElement)
    → Ascending (first ∷ es)
    → with_key k (insert_after e es) ≡ joined e k (with_key k es)
insert_after-with_key e first k [] asc = ground arith
insert_after-with_key e first k (f ∷ es) (le, asc) = elim (Bool-cases (ltb_ℤ e.key f.key)) [
  | inl before ↦ rw before (joined_first e f k es before asc)
  | inr after ↦
      rw after (joined-∷ e f k es (insert_after e es) (insert_after-with_key e f k es asc))
]

insert_sorted-with_key :
    (e : ListElement) (k : ℤ) (es : List ListElement)
    → Ascending es
    → with_key k (insert_sorted e es) ≡ joined e k (with_key k es)
insert_sorted-with_key e k [] asc = ground arith
insert_sorted-with_key e k (f ∷ es) asc = elim (Bool-cases (ltb_ℤ e.key f.key)) [
  | inl before ↦ rw before (joined_first e f k es before asc)
  | inr after ↦
      rw after (joined-∷ e f k es (insert_after e es) (insert_after-with_key e f k es asc))
]

-- `SortedInsert` into a list with its keys in ascending order puts the item behind all items of its
-- own key, and keeps the items of every other key as they were.
pub sorted_insert-with_key :
    (item key k : ℤ) (q : Queue)
    → Ascending q.elements
    → with_key k ((sorted_insert item key q).elements)
      ≡ (if eqb_ℤ key k then with_key k q.elements ++ (item ∷ []) else with_key k q.elements)
unfolding sorted_insert
sorted_insert-with_key item key k q asc =
    insert_sorted-with_key (record { item = item; key = key }) k q.elements asc

abbrev pub append_all : List ℤ → Queue → Queue
append_all [] q = q
append_all (x ∷ xs) q = append_all xs (append x q)

abbrev pub removed : Option ListElement → List ℤ → List ℤ
removed none rest = rest
removed (some e) rest = e.item ∷ rest

-- The items that `n` calls of `Remove` return.
abbrev pub drain : ℕ → Queue → List ℤ
drain zero q = []
drain (suc n) q = let (q', first) = remove q in removed first (drain n q')

append_all-items : (xs : List ℤ) (q : Queue) → items (append_all xs q) ≡ items q ++ xs
unfolding append
append_all-items [] q = sym (append-nil (items q))
append_all-items (x ∷ xs) q =
    append_all-items xs (append x q)
    ∙ (ap (λ ys. ys ++ xs) (map-append (λ (e : ListElement). e.item) q.elements _)
        ∙ append_assoc (items q) (x ∷ []) xs)

drain-items :
    (es : List ListElement) (size : ℤ)
    → drain (length es) (record { elements = es; size = size })
      ≡ map (λ (e : ListElement). e.item) es
unfolding remove sorted_remove
drain-items [] size = refl
drain-items (e ∷ es) size = ap (◌∷◌ e.item) (drain-items es _)

-- First in, first out: after a run of `Append`, as many calls of `Remove` as there are items return
-- what the queue held, then what was appended, each in its order.
pub fifo :
    (xs : List ℤ) (q : Queue)
    → drain (length ((append_all xs q).elements)) (append_all xs q) ≡ items q ++ xs
fifo xs q = drain-items (append_all xs q).elements (append_all xs q).size ∙ append_all-items xs q
