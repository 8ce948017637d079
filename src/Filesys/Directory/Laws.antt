-- ===== src/Filesys/Directory/Laws.antt =====
-- The directory as a finite map from names to sectors.
use cs350project.Prelude.{
  ℕ, zero, suc, ◌+◌, ◌≡◌, ◌↔◌, inl, inr, refl, sym, ap, ◌∙◌, ◌&&◌, not, Bool, true, false,
  if◌then◌else◌, ℤ, pos, minus_one, List, [], ◌∷◌, take, Option, none, some, arith, Bool-cases,
  Option-cases,
}
use cs350project.Filesys.Directory.{
  DirectoryEntry, Directory, eq_bytes, same_name, matches, find_index_from, find_index, sector_at,
  find, add_entry, file_name_max_len,
}

eq_bytes_sound : (a b : List ℕ) → eq_bytes a b ≡ true → a ≡ b
eq_bytes_sound [] [] h = refl
eq_bytes_sound (x ∷ a) (y ∷ b) h =
    let here : x ≡ y = ground arith in
    let rest : eq_bytes a b ≡ true = ground arith in let tail = eq_bytes_sound a b rest in cc
eq_bytes_sound [] (y ∷ b) h = absurd (cc)
eq_bytes_sound (x ∷ a) [] h = absurd (cc)

eq_bytes_refl : (a : List ℕ) → eq_bytes a a ≡ true
eq_bytes_refl [] = refl
eq_bytes_refl (x ∷ a) = ground (arith, eq_bytes_refl a)

take-take : (n : ℕ) (a : List ℕ) → take n (take n a) ≡ take n a
take-take zero a = refl
take-take (suc n) [] = refl
take-take (suc n) (x ∷ a) = ap (◌∷◌ x) (take-take n a)

-- Names that agree on their significant bytes match the same entries.
pub same_name_congr : (a b c : List ℕ) → same_name b c ≡ true → same_name a c ≡ same_name a b
unfolding same_name
same_name_congr a b c h = ap (eq_bytes (take file_name_max_len a)) (sym (eq_bytes_sound _ _ h))

pub same_name_iff :
    (a b : List ℕ) → (same_name a b ≡ true) ↔ (take file_name_max_len a ≡ take file_name_max_len b)
unfolding same_name
same_name_iff a b =
    (λ h. eq_bytes_sound _ _ h, λ e. rw e (eq_bytes_refl (take file_name_max_len b)))

pub same_name_comm : (a b : List ℕ) → same_name a b ≡ same_name b a
same_name_comm a b = elim (Bool-cases (same_name a b)) [
  | inl hit ↦ hit ∙ sym ((same_name_iff b a).1 (sym ((same_name_iff a b).0 hit)))
  | inr miss ↦ elim (Bool-cases (same_name b a)) [
    | inl hit ↦ absurd (ground (arith, (same_name_iff a b).1 (sym ((same_name_iff b a).0 hit))))
    | inr miss' ↦ miss ∙ sym miss'
  ]
]

-- The abstract directory: the sector of the first entry in use that has the name.
abbrev pub lookup : List DirectoryEntry → List ℕ → Option ℤ
lookup [] name = none
lookup (e ∷ es) name = if matches e name then some e.sector else lookup es name

abbrev pub or_minus_one : Option ℤ → ℤ
or_minus_one none = minus_one
or_minus_one (some s) = s

abbrev pub next : Option ℕ → Option ℕ
next none = none
next (some k) = some (suc k)

-- The index that the search returns, from any start.
abbrev pub index : List DirectoryEntry → List ℕ → Option ℕ
index [] name = none
index (e ∷ es) name = if matches e name then some 0 else next (index es name)

abbrev pub index_from : ℕ → Option ℕ → ℤ
index_from i none = minus_one
index_from i (some k) = pos (i + k)

shift :
    (i : ℕ) (found : Bool) (o : Option ℕ) (rest : ℤ)
    → rest ≡ index_from (i + 1) o
    → (if found then pos i else rest) ≡ index_from i (if found then some 0 else next o)
shift i true o rest h = ground arith
shift i false none rest h = h
shift i false (some k) rest h = h ∙ ground arith

find_index_from_lem :
    (i : ℕ) (es : List DirectoryEntry) (name : List ℕ)
    → find_index_from i es name ≡ index_from i (index es name)
unfolding find_index_from
find_index_from_lem i [] name = refl
find_index_from_lem i (e ∷ es) name =
    let rest = find_index_from_lem (i + 1) es name in
    shift i (matches e name) (index es name) (find_index_from (i + 1) es name) rest

pub find_index_lem :
    (d : Directory) (name : List ℕ) → find_index d name ≡ index_from 0 (index d.table name)
unfolding find_index
find_index_lem d name = find_index_from_lem 0 d.table name

sector_step :
    (e : DirectoryEntry) (es : List DirectoryEntry) (found : Bool) (o : Option ℕ) (s : Option ℤ)
    → sector_at es (index_from 0 o) ≡ or_minus_one s
    → sector_at (e ∷ es) (index_from 0 (if found then some 0 else next o))
      ≡ or_minus_one (if found then some e.sector else s)
sector_step e es true o s h = refl
sector_step e es false none s h = ground arith
sector_step e es false (some k) s h =
    let one : 0 + suc k ≡ suc k = omega arith in
    let zero_add : 0 + k ≡ k = omega arith in rw one (rw zero_add at h)

sector_lem :
    (es : List DirectoryEntry) (name : List ℕ)
    → sector_at es (index_from 0 (index es name)) ≡ or_minus_one (lookup es name)
sector_lem [] name = refl
sector_lem (e ∷ es) name =
    sector_step e es (matches e name) (index es name) (lookup es name) (sector_lem es name)

-- `Find` is a lookup, with -1 for a name that is not in the directory.
pub find_lem : (d : Directory) (name : List ℕ) → find d name ≡ or_minus_one (lookup d.table name)
unfolding find
find_lem d name = ap (sector_at d.table) (find_index_lem d name) ∙ sector_lem d.table name

-- No two entries in use have the same name.
abbrev pub Unique : List DirectoryEntry → Type 0
Unique [] = Unit
Unique (e ∷ es) = (e.in_use ≡ true → lookup es e.name ≡ none) × Unique es

find_index-none :
    (d : Directory) (name : List ℕ) → lookup d.table name ≡ none → find_index d name ≡ minus_one
find_index-none d name h = find_index_lem d name ∙ ap (index_from 0) (go d.table h)
  where
    go : (es : List DirectoryEntry) → lookup es name ≡ none → index es name ≡ none
    go [] h = refl
    go (e ∷ es) h = ground (arith, go es)

abbrev pub all_used : List DirectoryEntry → Bool
all_used [] = true
all_used (e ∷ es) = e.in_use && all_used es

pub same_name-take : (a b : List ℕ) → same_name (take file_name_max_len a) b ≡ same_name a b
unfolding same_name
same_name-take a b = ap (λ c. eq_bytes c (take file_name_max_len b)) (take-take file_name_max_len a)

-- An entry that was added is found under its name, and the others as before.
pub add_entry-lookup :
    (es : List DirectoryEntry) (name other : List ℕ) (s : ℤ)
    → lookup es name ≡ none
    → all_used es ≡ false
    → lookup ((add_entry es name s).0) other
      ≡ (if same_name name other then some s else lookup es other)
unfolding add_entry
add_entry-lookup [] name other s h free = absurd (cc)
add_entry-lookup (x ∷ es) name other s h free = elim (Bool-cases x.in_use) [
  | inl used ↦
      let rest = add_entry-lookup es name other s (ground arith) (ground arith) in
      let congr = same_name_congr x.name name other in ground (arith, used, rest, congr)
  | inr unused ↦ ground (arith, unused, same_name-take name other)
]

pub add_entry-full :
    (es : List DirectoryEntry) (name : List ℕ) (s : ℤ) → (add_entry es name s).1 ≡ not (all_used es)
unfolding add_entry
add_entry-full [] name s = refl
add_entry-full (x ∷ es) name s = ground (arith, add_entry-full es name s)

pub add_entry-same :
    (es : List DirectoryEntry) (name : List ℕ) (s : ℤ)
    → all_used es ≡ true
    → (add_entry es name s).0 ≡ es
unfolding add_entry
add_entry-same [] name s h = refl
add_entry-same (x ∷ es) name s h = ground (arith, add_entry-same es name s)

pub index-none :
    (es : List DirectoryEntry) (name : List ℕ) → (index es name ≡ none) ↔ (lookup es name ≡ none)
index-none [] name = ground arith
index-none (e ∷ es) name = elim (Option-cases (index es name)) [
  | inl miss ↦ ground (arith, index-none es name, miss)
  | inr (k, hit) ↦ ground (arith, index-none es name, hit)
]
