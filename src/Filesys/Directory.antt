-- ===== src/Filesys/Directory.antt =====
-- filesys/directory.cc: a table of names with the sector of each file's header.
pub mod Laws
pub mod Map
use cs350project.Prelude.{
  ℕ, zero, suc, ◌+◌, ◌==◌, ◌&&◌, not, Bool, true, false, if◌then◌else◌, ℤ, pos, negsuc, minus_one,
  List, [], ◌∷◌, set, replicate, take, Option, none, some, length,
}

-- A name is the bytes of a C string, without the final zero byte.
abbrev pub file_name_max_len : ℕ
file_name_max_len = 9

abbrev pub eq_bytes : List ℕ → List ℕ → Bool
eq_bytes [] [] = true
eq_bytes (x ∷ a) (y ∷ b) = x == y && eq_bytes a b
eq_bytes _ _ = false

-- `!strncmp(a, b, FileNameMaxLen)`
unfoldable pub same_name : List ℕ → List ℕ → Bool
same_name a b = eq_bytes (take file_name_max_len a) (take file_name_max_len b)

pub record DirectoryEntry : Type 0 where
  pub in_use : Bool
  pub sector : ℤ
  pub name : List ℕ

-- `tableSize` is the length of the table.
pub record Directory : Type 0 where
  pub table : List DirectoryEntry

abbrev pub cleared : List DirectoryEntry → List DirectoryEntry
cleared [] = []
cleared (e ∷ es) = record e { in_use = false } ∷ cleared es

-- `Directory::Directory`, over fresh memory
unfoldable pub new_directory : List DirectoryEntry → Directory
new_directory fresh = record { table = cleared fresh }

abbrev pub matches : DirectoryEntry → List ℕ → Bool
matches e name = e.in_use && same_name e.name name

-- The first entry with the name, counted from `i`.
unfoldable pub find_index_from : ℕ → List DirectoryEntry → List ℕ → ℤ
find_index_from i [] name = minus_one
find_index_from i (e ∷ es) name =
    let rest = find_index_from (i + 1) es name in if matches e name then pos i else rest

-- `Directory::FindIndex`
unfoldable pub find_index : Directory → List ℕ → ℤ
find_index d name = find_index_from 0 d.table name

-- A field of an entry past the table is never read: `FindIndex` stays inside.
abbrev pub sector_at : List DirectoryEntry → ℤ → ℤ
sector_at es (negsuc i) = minus_one
sector_at [] (pos i) = minus_one
sector_at (e ∷ es) (pos zero) = e.sector
sector_at (e ∷ es) (pos (suc i)) = sector_at es (pos i)

-- `Directory::Find`
unfoldable pub find : Directory → List ℕ → ℤ
find d name = sector_at d.table (find_index d name)

-- `strncpy` into the entry, whose name no later comparison reads past its first bytes.
abbrev pub entry_for : List ℕ → ℤ → DirectoryEntry
entry_for name sector = record {
  in_use = true;
  sector = sector;
  name = take file_name_max_len name;
}

abbrev pub with_head : DirectoryEntry → List DirectoryEntry × Bool → List DirectoryEntry × Bool
with_head e (es, added) = (e ∷ es, added)

-- The first unused entry takes the file.
unfoldable pub add_entry : List DirectoryEntry → List ℕ → ℤ → List DirectoryEntry × Bool
add_entry [] name sector = ([], false)
add_entry (e ∷ es) name sector =
    let rest = add_entry es name sector in
    if e.in_use then with_head e rest else (entry_for name sector ∷ es, true)

abbrev pub as_directory : List DirectoryEntry × Bool → Directory × Bool
as_directory (es, added) = (record { table = es }, added)

abbrev pub added_at : Directory → List ℕ → ℤ → ℤ → Directory × Bool
added_at d name sector (pos i) = (d, false)
added_at d name sector (negsuc i) = as_directory (add_entry d.table name sector)

-- `Directory::Add`
unfoldable pub add : Directory → List ℕ → ℤ → Directory × Bool
add d name sector = added_at d name sector (find_index d name)

abbrev pub clear_in_use : List DirectoryEntry → ℕ → List DirectoryEntry
clear_in_use [] i = []
clear_in_use (e ∷ es) zero = record e { in_use = false } ∷ es
clear_in_use (e ∷ es) (suc i) = e ∷ clear_in_use es i

abbrev pub removed_at : Directory → ℤ → Directory × Bool
removed_at d (negsuc i) = (d, false)
removed_at d (pos i) = (record { table = clear_in_use d.table i }, true)

-- `Directory::Remove`
unfoldable pub remove : Directory → List ℕ → Directory × Bool
remove d name = removed_at d (find_index d name)
