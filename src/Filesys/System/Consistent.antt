-- ===== src/Filesys/System/Consistent.antt =====
-- `Create` keeps the disk consistent, and accounts for its sectors.
use cs350project.Prelude.{
  ℕ, ◌+◌, ◌≤◌, ◌≡◌, sym, ap, subst, ◌∙◌, true, pos, some, List, length, arith, Bool-cases, inl, inr,
}
use cs350project.Bitmap.{test_bit, num_clear}
use cs350project.Bitmap.Laws.{IsSized, mark_bit-IsSized, test_bit-mark_bit}
use cs350project.Bitmap.Search.{find_allocates, find_marks}
use cs350project.Filesys.Directory
use cs350project.Filesys.Directory.{Directory, same_name}
use cs350project.Filesys.Directory.Laws.{Unique}
use cs350project.Filesys.Directory.Map.{find-add, add-Unique}
use cs350project.Filesys.Header.{FileHeader, num_direct}
use cs350project.Filesys.Header.Space.{sectors_for, allocate-marks}
use cs350project.Filesys.System.{Disk, create}
use cs350project.Filesys.System.Files.{create_lem, IsConsistent}

module _ (fresh : FileHeader) (d d' : Disk) (name : List ℕ) (size : ℕ) (ok : IsConsistent d)
    (long : length fresh.data_sectors ≡ num_direct) (fits : sectors_for size ≤ num_direct)
    (run : create fresh d name size ≡ some (d', true)) where
  -- On a consistent disk, a `Create` that succeeds takes one sector for the header and as many as
  -- the size needs for the data. The new header has room for 30 sectors, and the size needs no
  -- more.
  pub create_counts : num_clear d.free_map ≡ num_clear d'.free_map + sectors_for size + 1
  create_counts =
      let c = create_lem fresh d d' name size run in
      let a = find_allocates d.free_map c.free_map c.sector ok.sized c.taken in
      let (same_map, inside, free) = find_marks d.free_map c.free_map c.sector ok.sized c.taken in
      let sized : IsSized c.free_map =
        subst IsSized same_map (mark_bit-IsSized d.free_map c.sector ok.sized) in
      let (marks, sized', count) =
        allocate-marks fresh c.header c.free_map d'.free_map size sized long fits c.filled in
      omega (arith, count, a.one_fewer)

  -- A `Create` that succeeds keeps a consistent disk consistent. The new header has room for 30
  -- sectors, and the size needs no more.
  pub create-IsConsistent : IsConsistent d'
  create-IsConsistent =
      let c = create_lem fresh d d' name size run in
      let (same_map, inside, free) = find_marks d.free_map c.free_map c.sector ok.sized c.taken in
      let sized : IsSized c.free_map =
        subst IsSized same_map (mark_bit-IsSized d.free_map c.sector ok.sized) in
      let (marks, sized', count) =
        allocate-marks fresh c.header c.free_map d'.free_map size sized long fits c.filled in
      let found = λ (other : List ℕ).
        ap (λ t. Directory.find t other) c.directory
        ∙ find-add d.directory name (pos c.sector) other c.added in
      let marked = λ (j : ℕ).
        sym (ap (λ m. test_bit m j) same_map)
        ∙ test_bit-mark_bit d.free_map c.sector j ok.sized inside in
      record {
        sized = sized';
        unique =
            subst (λ t. Unique (t.table)) (sym c.directory)
              (add-Unique d.directory name ok.unique (pos c.sector));
        marked = λ other s at. elim (Bool-cases (same_name name other)) [
          | inl same ↦
              let here : c.sector ≡ s = ground (arith, found other, at, same) in
              marks s (ground (arith, marked s, here))
          | inr different ↦
              let there : Directory.find d.directory other ≡ pos s =
                ground (arith, found other, at, different) in
              marks s (ground (arith, marked s, ok.marked other s there))
        ];
      }
