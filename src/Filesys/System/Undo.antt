-- ===== src/Filesys/System/Undo.antt =====
-- `Remove` against `Create`.
use cs350project.Prelude.{
  ℕ, ◌≤◌, ◌<◌, ◌≡◌, refl, sym, ap, subst, ◌∙◌, true, false, pos, some, List, length, arith,
}
use cs350project.Bitmap.{BitMap, mark_bit, clear_bit, test_bit, clear}
use cs350project.Bitmap.Laws.{
  IsSized, mark_bit-IsSized, clear_bit-IsSized, test_bit-mark_bit, test_bit-clear_bit,
}
use cs350project.Bitmap.View.{view}
use cs350project.Bitmap.Search.{find_marks, mark_bit-num_bits, clear_bit-num_bits}
use cs350project.Filesys.Directory
use cs350project.Filesys.Directory.{Directory, same_name}
use cs350project.Filesys.Directory.Laws.{Unique, find_lem, same_name_iff}
use cs350project.Filesys.Directory.Map.{find-add, find-remove, add-Unique, lookup_congr}
use cs350project.Filesys.Header.{FileHeader, num_direct}
use cs350project.Filesys.Header.Space.{sectors_for, deallocate-allocate, Restored, Restored-view}
use cs350project.Filesys.System.{Disk, create, remove}
use cs350project.Filesys.System.Files.{create_lem, IsConsistent}

find_congr :
    (d : Directory) (a b : List ℕ) → same_name a b ≡ true → Directory.find d b ≡ Directory.find d a
find_congr d a b same = rw (find_lem d a, find_lem d b, lookup_congr d.table a b same)

same_name_refl : (a : List ℕ) → same_name a a ≡ true
same_name_refl a = (same_name_iff a a).1 refl

-- Clearing the bit that was marked restores the bitmap.
unmark :
    (b m : BitMap) (k : ℕ)
    → IsSized b
    → k < b.num_bits
    → test_bit b k ≡ false
    → Restored m (mark_bit b k)
    → (clear m (pos k) ≡ some (clear_bit m k)) × Restored (clear_bit m k) b
unfolding clear
unmark b m k h inside free r =
    let size : m.num_bits ≡ b.num_bits = r.size ∙ mark_bit-num_bits b k in
    let inside' : k < m.num_bits = omega (arith, size) in
    (
      ground arith,
      record {
        bits = λ j. ground (
          arith,
          test_bit-clear_bit m k j r.sized inside',
          r.bits j,
          test_bit-mark_bit b k j h inside,
        );
        size = clear_bit-num_bits m k ∙ size;
        sized = clear_bit-IsSized m k r.sized;
      },
    )

-- On a consistent disk, a `Remove` after a `Create` that succeeded succeeds as well: it restores
-- every bit of the bitmap, and every name has the sector that it had before. The new header has
-- room for 30 sectors, and the size needs no more.
pub remove-create :
    (fresh : FileHeader) (d d' : Disk) (name : List ℕ) (size : ℕ)
    → IsConsistent d
    → length fresh.data_sectors ≡ num_direct
    → sectors_for size ≤ num_direct
    → create fresh d name size ≡ some (d', true)
    → (d'' : Disk) × (remove d' name ≡ some (d'', true))
      × (view d''.free_map ≡ view d.free_map)
      × ((other : List ℕ) → Directory.find d''.directory other ≡ Directory.find d.directory other)
unfolding remove
remove-create fresh d d' name size ok long fits e =
    let c = create_lem fresh d d' name size e in
    let (same_map, inside, free) = find_marks d.free_map c.free_map c.sector ok.sized c.taken in
    let k = c.sector in
    let sized : IsSized c.free_map =
      subst IsSized same_map (mark_bit-IsSized d.free_map k ok.sized) in
    let (b, back, restored) =
      deallocate-allocate fresh c.header c.free_map d'.free_map size sized long fits c.filled in
    let restored' : Restored b (mark_bit d.free_map k) =
      subst (Restored b) (sym same_map) restored in
    let (cleared, as_before) = unmark d.free_map b k ok.sized inside free restored' in
    let added = λ (other : List ℕ).
      ap (λ t. Directory.find t other) c.directory
      ∙ find-add d.directory name (pos k) other c.added in
    let place : Directory.find d'.directory name ≡ pos k =
      ground (arith, added name, same_name_refl name) in
    let at : d'.headers k ≡ c.header = ap (λ f. f k) c.headers ∙ ground arith in
    let unique : Unique d'.directory.table =
      subst (λ t. Unique (t.table)) (sym c.directory)
        (add-Unique d.directory name ok.unique (pos k)) in
    (
      record d' { free_map = clear_bit b k; directory = (Directory.remove d'.directory name).0 },
      rw (place, at, back, cleared),
      Restored-view _ _ as_before,
      λ other.
          find-remove d'.directory name other unique
          ∙ ground (arith, added other, find_congr d.directory name other, c.was_new),
    )
