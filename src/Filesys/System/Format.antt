-- ===== src/Filesys/System/Format.antt =====
-- A disk that has been formatted.
use cs350project.Prelude.{
  ℕ, ◌≡◌, refl, sym, ◌∙◌, false, minus_one, none, some, List, [], ◌∷◌, length, arith,
}
use cs350project.Bitmap.{mark_bit, test_bit, new_bitmap, num_clear, div_round_up}
use cs350project.Bitmap.Laws.{mark_bit-IsSized, test_bit-mark_bit}
use cs350project.Bitmap.Search.{mark_bit-num_bits, num_clear-new_bitmap}
use cs350project.Bitmap.Fresh.{new_bitmap-IsFresh, num_clear-mark_bit, mark_succeeds}
use cs350project.Filesys.Directory
use cs350project.Filesys.Directory.{DirectoryEntry, Directory, new_directory, cleared}
use cs350project.Filesys.Directory.Laws.{lookup, find_lem}
use cs350project.Filesys.Directory.Map.{new_directory-Unique}
use cs350project.Filesys.Header.{FileHeader, num_direct}
use cs350project.Filesys.Header.Space.{sectors_for, allocate_succeeds}
use cs350project.Filesys.System.{Disk, write_header, format}
use cs350project.Filesys.System.Files.{IsConsistent}

lookup-cleared : (es : List DirectoryEntry) (name : List ℕ) → lookup (cleared es) name ≡ none
lookup-cleared [] name = refl
lookup-cleared (e ∷ es) name = lookup-cleared es name

find-new_directory :
    (es : List DirectoryEntry) (name : List ℕ) → Directory.find (new_directory es) name ≡ minus_one
unfolding new_directory
find-new_directory es name =
    find_lem (record { table = cleared es }) name ∙ rw (lookup-cleared es name)

one_sector : sectors_for 128 ≡ 1
unfolding div_round_up
one_sector = refl

two_sectors : sectors_for 200 ≡ 2
unfolding div_round_up
two_sectors = refl

words_needed : div_round_up 1024 32 ≡ 32
unfolding div_round_up
words_needed = refl

-- Formatting a disk succeeds, over any fresh memory of the right size: the disk is consistent, no
-- name is in its directory, and five of its 1024 sectors are taken.
pub format_succeeds :
    (words : List ℕ) (entries : List DirectoryEntry) (h1 h2 : FileHeader) (old : ℕ → FileHeader)
    → length words ≡ 32
    → length h1.data_sectors ≡ num_direct
    → length h2.data_sectors ≡ num_direct
    → (d : Disk) × (format words entries h1 h2 old ≡ some d)
      × IsConsistent d
      × ((name : List ℕ) → Directory.find d.directory name ≡ minus_one)
      × (num_clear d.free_map ≡ 1019)
unfolding format
format_succeeds words entries h1 h2 old long room1 room2 =
    let b = new_bitmap words 1024 in
    let fresh = new_bitmap-IsFresh words 1024 (long ∙ sym words_needed) in
    let all = num_clear-new_bitmap words 1024 (long ∙ sym words_needed) in
    let b1 = mark_bit b 0 in
    let sized1 = mark_bit-IsSized b 0 fresh.sized in
    let size1 = mark_bit-num_bits b 0 in
    let count1 =
      num_clear-mark_bit b 0 fresh.sized (omega (arith, fresh.size))
        (fresh.clear 0 (omega arith)) in
    let free1 : test_bit b1 1 ≡ false =
      test_bit-mark_bit b 0 1 fresh.sized (omega (arith, fresh.size))
      ∙ fresh.clear 1 (omega arith) in
    let b2 = mark_bit b1 1 in
    let sized2 = mark_bit-IsSized b1 1 sized1 in
    let count2 = num_clear-mark_bit b1 1 sized1 (omega (arith, fresh.size, size1)) free1 in
    let (h1', b3, a) =
      allocate_succeeds h1 b2 128 sized2 room1 (omega (arith, one_sector))
        (omega (arith, one_sector, all, count1, count2)) in
    let (h2', b4, c) =
      allocate_succeeds h2 b3 200 a.keeps_size room2 (omega (arith, two_sectors))
        (omega (arith, one_sector, two_sectors, all, count1, count2, a.count)) in
    let run1 = mark_succeeds b 0 (omega (arith, fresh.size)) in
    let run2 = mark_succeeds b1 1 (omega (arith, fresh.size, size1)) in
    (
      record {
        free_map = b4;
        directory = new_directory entries;
        headers = write_header (write_header old 0 h1') 1 h2';
      },
      rw (run1, run2, a.runs, c.runs),
      record {
        sized = c.keeps_size;
        unique = new_directory-Unique entries;
        marked = λ name s at. absurd (ground (arith, at, find-new_directory entries name));
      },
      find-new_directory entries,
      omega (arith, one_sector, two_sectors, all, count1, count2, a.count, c.count),
    )
