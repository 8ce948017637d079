-- ===== src/Filesys/Directory/Map.antt =====
-- `Add`, `Remove` and `Find` against each other, on a directory in which no two names are the same.
use cs350project.Prelude.{
  ℕ, zero, suc, ◌+◌, ◌≡◌, ◌≢◌, ◌↔◌, inl, inr, refl, ap, ◌∙◌, true, false, if◌then◌else◌, ℤ, pos,
  negsuc, minus_one, List, [], ◌∷◌, take, Option, none, some, arith, Bool-cases, Option-cases,
}
use cs350project.Filesys.Directory.{
  DirectoryEntry, Directory, same_name, matches, find_index, find, add_entry, add, as_directory,
  clear_in_use, removed_at, remove, new_directory, cleared, file_name_max_len,
}
use cs350project.Filesys.Directory.Laws.{
  same_name_iff, same_name_congr, same_name_comm, same_name-take, lookup, index, index_from, next,
  index-none, find_index_lem, find_lem, Unique, all_used, add_entry-lookup, add_entry-full,
  add_entry-same,
}

pub lookup_congr :
    (es : List DirectoryEntry) (a b : List ℕ) → same_name a b ≡ true → lookup es b ≡ lookup es a
lookup_congr [] a b h = refl
lookup_congr (e ∷ es) a b h = ground (arith, lookup_congr es a b h, same_name_congr e.name a b h)

module _ (d : Directory) (name : List ℕ) (s : ℤ) where
  add-new : lookup d.table name ≡ none → add d name s ≡ as_directory (add_entry d.table name s)
  unfolding add
  add-new h =
      let place : find_index d name ≡ minus_one =
        find_index_lem d name ∙ ap (index_from 0) ((index-none d.table name).1 h) in
      rw place

  add-known : (k : ℤ) → lookup d.table name ≡ some k → add d name s ≡ (d, false)
  unfolding add
  add-known k h = elim (Option-cases (index d.table name)) [
    | inl out ↦ absurd (ground (arith, (index-none d.table name).0 out))
    | inr (i, at) ↦ rw (find_index_lem d name ∙ ap (index_from 0) at)
  ]

  -- `Add` succeeds exactly when the name is not in the directory and an entry is free.
  pub add_succeeds :
      ((add d name s).1 ≡ true) ↔ (lookup d.table name ≡ none) × (all_used d.table ≡ false)
  add_succeeds = elim (Option-cases (lookup d.table name)) [
    | inl new ↦ rw (add-new new) (ground (arith, add_entry-full d.table name s))
    | inr (k, known) ↦ rw (add-known k known) (ground arith)
  ]

  -- An `Add` that fails leaves the directory as it was.
  pub add_fails : (add d name s).1 ≡ false → (add d name s).0 ≡ d
  add_fails h = elim (Option-cases (lookup d.table name)) [
    | inl new ↦
        let full : all_used d.table ≡ true =
          ground (arith, h, ap (λ r. r.1) (add-new new), add_entry-full d.table name s) in
        rw (add-new new) (ap (λ t. record { table = t }) (add_entry-same d.table name s full))
    | inr (k, known) ↦ rw (add-known k known)
  ]

  -- After an `Add` that succeeds, `Find` returns the new sector for the name that was added, and for
  -- each name that agrees with it in its first nine bytes, and answers as before for the others.
  pub find-add :
      (other : List ℕ)
      → (add d name s).1 ≡ true
      → find ((add d name s).0) other ≡ (if same_name name other then s else find d other)
  find-add other h =
      let (new, free) = add_succeeds.0 h in
      rw
        (
          find_lem ((add d name s).0) other,
          find_lem d other,
          add-new new,
          add_entry-lookup d.table name other s new free,
        )
        (ground arith)

index-suc : (o : Option ℕ) (k : ℕ) → next o ≡ some (suc k) → o ≡ some k
index-suc none k h = absurd (cc)
index-suc (some i) k h = ground arith

next-zero : (o : Option ℕ) → next o ≢ some 0
next-zero none h = absurd (cc)
next-zero (some i) h = absurd (ground (arith, h))

cleared-lookup :
    (es : List DirectoryEntry) (name other : List ℕ) (k : ℕ)
    → Unique es
    → index es name ≡ some k
    → lookup (clear_in_use es k) other ≡ (if same_name name other then none else lookup es other)
cleared-lookup [] name other k u h = absurd (cc)
cleared-lookup (x ∷ es) name other zero (alone, u) h =
    let hit : matches x name ≡ true = ground (arith, next-zero (index es name)) in
    let same = same_name_congr x.name name other in
    let twin = lookup_congr es x.name other in
    ground (
      arith,
      same,
      twin,
      same_name_comm x.name other,
      alone,
      same_name_congr other name x.name,
      same_name_comm x.name name,
      same_name_comm name other,
    )
cleared-lookup (x ∷ es) name other (suc k) (alone, u) h =
    let miss : matches x name ≡ false = ground arith in
    let place : index es name ≡ some k = index-suc (index es name) k (ground (arith, miss)) in
    ground (arith, miss, cleared-lookup es name other k u place, same_name_congr x.name name other)

removed_lookup :
    (d : Directory) (name other : List ℕ) (o : Option ℕ)
    → Unique d.table
    → index d.table name ≡ o
    → lookup ((removed_at d (index_from 0 o)).0).table other
      ≡ (if same_name name other then none else lookup d.table other)
removed_lookup d name other none u h =
    ground (arith, lookup_congr d.table name other, (index-none d.table name).0 h)
removed_lookup d name other (some k) u h =
    let zero_add : 0 + k ≡ k = omega arith in rw zero_add (cleared-lookup d.table name other k u h)

-- After a `Remove`, `Find` fails for the name, and for each name that agrees with it in its first
-- nine bytes, and answers as before for the others, if no two entries in use had the same name.
pub find-remove :
    (d : Directory) (name other : List ℕ)
    → Unique d.table
    → find ((remove d name).0) other ≡ (if same_name name other then minus_one else find d other)
unfolding remove
find-remove d name other u =
    rw
      (
        find_lem ((removed_at d (find_index d name)).0) other,
        find_lem d other,
        find_index_lem d name,
        removed_lookup d name other (index d.table name) u refl,
      )
      (ground arith)

-- `Remove` fails exactly when no entry in use has the name.
pub remove_succeeds :
    (d : Directory) (name : List ℕ) → ((remove d name).1 ≡ false) ↔ (lookup d.table name ≡ none)
unfolding remove
remove_succeeds d name = rw (find_index_lem d name) (elim (Option-cases (index d.table name)) [
  | inl out ↦ ground (arith, out, index-none d.table name)
  | inr (k, at) ↦ ground (arith, at, index-none d.table name)
])

-- No two names are the same in a new directory.
Unique-cleared : (es : List DirectoryEntry) → Unique (cleared es)
Unique-cleared [] = tt
Unique-cleared (e ∷ es) = (λ h. absurd (cc), Unique-cleared es)

pub new_directory-Unique : (fresh : List DirectoryEntry) → Unique ((new_directory fresh).table)
unfolding new_directory
new_directory-Unique fresh = Unique-cleared fresh

add_entry-none :
    (es : List DirectoryEntry) (name other : List ℕ) (s : ℤ)
    → lookup es name ≡ none
    → same_name name other ≡ false
    → lookup es other ≡ none
    → lookup ((add_entry es name s).0) other ≡ none
add_entry-none es name other s new apart h = elim (Bool-cases (all_used es)) [
  | inl full ↦ ap (λ t. lookup t other) (add_entry-same es name s full) ∙ h
  | inr free ↦ ground (arith, add_entry-lookup es name other s new free)
]

add_entry-Unique :
    (es : List DirectoryEntry) (name : List ℕ) (s : ℤ)
    → Unique es
    → lookup es name ≡ none
    → Unique ((add_entry es name s).0)
unfolding add_entry
add_entry-Unique [] name s u h = tt
add_entry-Unique (x ∷ es) name s (alone, u) h = elim (Bool-cases x.in_use) [
  | inl used ↦
      let apart : same_name name x.name ≡ false =
        ground (arith, used, same_name_comm x.name name) in
      let new : lookup es name ≡ none = ground (arith, used) in
      rw used (
        λ h. add_entry-none es name x.name s new apart (alone used),
        add_entry-Unique es name s u new,
      )
  | inr unused ↦
      let same : same_name name (take file_name_max_len name) ≡ true =
        same_name_comm name _ ∙ (same_name-take name name ∙ (same_name_iff name name).1 refl) in
      let new : lookup es name ≡ none = ground (arith, unused) in
      rw unused (λ h. lookup_congr es name _ same ∙ new, u)
]

clear_in_use-none :
    (es : List DirectoryEntry) (other : List ℕ) (k : ℕ)
    → lookup es other ≡ none
    → lookup (clear_in_use es k) other ≡ none
clear_in_use-none [] other k h = refl
clear_in_use-none (x ∷ es) other zero h = ground arith
clear_in_use-none (x ∷ es) other (suc k) h = ground (arith, clear_in_use-none es other k)

clear_in_use-Unique : (es : List DirectoryEntry) (k : ℕ) → Unique es → Unique (clear_in_use es k)
clear_in_use-Unique [] k u = tt
clear_in_use-Unique (x ∷ es) zero (alone, u) = (λ h. absurd (cc), u)
clear_in_use-Unique (x ∷ es) (suc k) (alone, u) =
    (λ h. clear_in_use-none es x.name k (alone h), clear_in_use-Unique es k u)

module _ (d : Directory) (name : List ℕ) (u : Unique d.table) where
  -- `Add` keeps the names in use different from each other, whether it succeeds or fails.
  pub add-Unique : (s : ℤ) → Unique (((add d name s).0).table)
  add-Unique s = elim (Option-cases (lookup d.table name)) [
    | inl new ↦ rw (add-new d name s new) (add_entry-Unique d.table name s u new)
    | inr (k, known) ↦ rw (add-known d name s k known) u
  ]

  -- `Remove` keeps the names in use different from each other.
  pub remove-Unique : Unique (((remove d name).0).table)
  unfolding remove
  remove-Unique = go (find_index d name)
    where
      go : (i : ℤ) → Unique (((removed_at d i).0).table)
      go (pos i) = clear_in_use-Unique d.table i u
      go (negsuc i) = u
