-- ===== src/Filesys/Tests.antt =====
-- The file system's theorems at a small disk.
use cs350project.Prelude.{
  ℕ, ◌≡◌, refl, Bool, true, false, pos, minus_one, none, some, List, [], ◌∷◌, replicate, arith, set,
  if◌then◌else◌,
}
use cs350project.Bitmap.{
  BitMap, mark_bit, find, find_from, test_bit, num_clear, count_clear, div_round_up,
}
use cs350project.Bitmap.Laws.{IsSized}
use cs350project.Bitmap.View.{view}
use cs350project.Filesys.Directory
use cs350project.Filesys.Directory.{
  DirectoryEntry, Directory, same_name, find_index, find_index_from, add_entry,
}
use cs350project.Filesys.Directory.Laws.{Unique, find_lem}
use cs350project.Filesys.Directory.Map.{find-add, remove-Unique}
use cs350project.Filesys.Header.{FileHeader, allocate, deallocate, take_sectors}
use cs350project.Filesys.Header.Space.{
  Restored, sectors_for, allocate_overflows, deallocate-allocate,
}
use cs350project.Filesys.System.Format.{format_succeeds}
use cs350project.Filesys.System.{Disk, format, write_header, create, open_file, remove}
use cs350project.Filesys.System.Files.{IsConsistent, create_fails}
use cs350project.Filesys.System.Opened.{open-create}
use cs350project.Filesys.System.Consistent.{create-IsConsistent}
use cs350project.Filesys.System.Undo.{remove-create}

abbrev bitmap : ℕ → BitMap
bitmap w = record { num_bits = 8; num_words = 1; map = w ∷ [] }

sized : (w : ℕ) → IsSized (bitmap w)
sized w = record { room = omega arith }

abbrev entry : Bool → ℕ → List ℕ → DirectoryEntry
entry used s name = record { in_use = used; sector = pos s; name = name }

-- One file is there, and one entry is free.
abbrev directory : Directory
directory = record { table = entry true 2 (b'a' ∷ []) ∷ entry false 0 [] ∷ [] }

abbrev two_files : Directory
two_files = record { table = entry true 2 (b'a' ∷ []) ∷ entry true 3 (b'b' ∷ []) ∷ [] }

unique : Unique directory.table
unique = (λ h. refl, (λ h. absurd (cc), tt))

two_files-Unique : Unique two_files.table
unfolding same_name
two_files-Unique = (λ h. refl, (λ h. refl, tt))

add_run : (Directory.add directory (b'b' ∷ []) (pos 3)).1 ≡ true
unfolding Directory.add find_index find_index_from same_name add_entry
add_run = refl

find-add_example :
    Directory.find ((Directory.add directory (b'b' ∷ []) (pos 3)).0) (b'b' ∷ [])
    ≡ (if same_name (b'b' ∷ []) (b'b' ∷ []) then pos 3 else Directory.find directory (b'b' ∷ []))
find-add_example = find-add directory (b'b' ∷ []) (pos 3) (b'b' ∷ []) add_run

remove-Unique_example : Unique (((Directory.remove two_files (b'a' ∷ [])).0).table)
remove-Unique_example = remove-Unique two_files (b'a' ∷ []) two_files-Unique

abbrev fresh : FileHeader
fresh = record { num_bytes = 0; num_sectors = 0; data_sectors = replicate 30 minus_one }

two_sectors : sectors_for 200 ≡ 2
unfolding div_round_up
two_sectors = refl

four_clear : num_clear (bitmap 15) ≡ 4
unfolding num_clear count_clear test_bit
four_clear = refl

abbrev header : FileHeader
header = record {
  num_bytes = 200;
  num_sectors = 2;
  data_sectors = set (set (replicate 30 minus_one) 0 (pos 4)) 1 (pos 5);
}

allocate_run : allocate fresh (bitmap 15) 200 ≡ some (header, bitmap 63, true)
unfolding allocate div_round_up num_clear count_clear test_bit take_sectors find find_from mark_bit
allocate_run = refl

deallocate-allocate_example :
    (b : BitMap) × (deallocate header (bitmap 63) ≡ some b) × Restored b (bitmap 15)
deallocate-allocate_example =
    deallocate-allocate fresh header (bitmap 15) (bitmap 63) 200 (sized 15) refl
      (omega (arith, two_sectors)) allocate_run

-- A disk of 64 free sectors, and a file of 31.
abbrev large : BitMap
large = record { num_bits = 64; num_words = 2; map = 0 ∷ 0 ∷ [] }

thirty_one : sectors_for 3968 ≡ 31
unfolding div_round_up
thirty_one = refl

all_clear : num_clear large ≡ 64
unfolding num_clear count_clear test_bit
all_clear = refl

allocate_overflows_example : allocate fresh large 3968 ≡ none
allocate_overflows_example =
    allocate_overflows fresh large 3968 (omega (arith, thirty_one))
      (omega (arith, thirty_one, all_clear))

abbrev disk : Disk
disk = record { free_map = bitmap 7; directory = directory; headers = λ s. fresh }

abbrev disk_after : Disk
disk_after = record {
  free_map = bitmap 63;
  directory = two_files;
  headers = write_header (λ s. fresh) 3 header;
}

create_run : create fresh disk (b'b' ∷ []) 200 ≡ some (disk_after, true)
unfolding create Directory.find Directory.add find_index find_index_from same_name add_entry
    allocate div_round_up num_clear count_clear test_bit take_sectors find find_from mark_bit
create_run = refl

bit_two : test_bit (bitmap 7) 2 ≡ true
unfolding test_bit
bit_two = refl

disk-IsConsistent : IsConsistent disk
disk-IsConsistent = record {
  sized = sized 7;
  unique = unique;
  marked = λ name s at. ground (arith, at, find_lem directory name, bit_two);
}

open-create_example :
    (h : FileHeader) × (allocate fresh (find (bitmap 7)).0 200 ≡ some (h, bitmap 63, true))
    × (open_file disk_after (b'b' ∷ [])
        ≡ (if same_name (b'b' ∷ []) (b'b' ∷ []) then some h else open_file disk (b'b' ∷ [])))
open-create_example =
    open-create fresh disk disk_after (b'b' ∷ []) (b'b' ∷ []) 200 disk-IsConsistent create_run

remove-create_example :
    (d : Disk) × (remove disk_after (b'b' ∷ []) ≡ some (d, true))
    × (view d.free_map ≡ view (bitmap 7))
    × ((other : List ℕ) → Directory.find d.directory other ≡ Directory.find directory other)
remove-create_example =
    remove-create fresh disk disk_after (b'b' ∷ []) 200 disk-IsConsistent refl
      (omega (arith, two_sectors)) create_run

create-IsConsistent_example : IsConsistent disk_after
create-IsConsistent_example =
    create-IsConsistent fresh disk disk_after (b'b' ∷ []) 200 disk-IsConsistent refl
      (omega (arith, two_sectors)) create_run

create_again : create fresh disk (b'a' ∷ []) 200 ≡ some (disk, false)
unfolding create Directory.find find_index find_index_from same_name
create_again = refl

create_fails_example : disk ≡ disk
create_fails_example = create_fails fresh disk disk (b'a' ∷ []) 200 create_again

format_succeeds_example :
    (d : Disk) × (format
        (replicate 32 77)
        (replicate 10 (entry true 9 (b'z' ∷ [])))
        fresh
        fresh
        (λ s. header)
      ≡ some d)
    × IsConsistent d
    × ((name : List ℕ) → Directory.find d.directory name ≡ minus_one)
    × (num_clear d.free_map ≡ 1019)
format_succeeds_example =
    format_succeeds (replicate 32 77) (replicate 10 (entry true 9 (b'z' ∷ []))) fresh fresh
      (λ s. header) refl refl refl
