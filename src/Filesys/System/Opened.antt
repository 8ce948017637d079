-- ===== src/Filesys/System/Opened.antt =====
-- What `Open` finds after `Create`, and what `Remove` undoes.
use cs350project.Prelude.{
  ℕ, ◌≡◌, ◌≢◌, refl, ap, ◌∙◌, ◌==◌, true, false, if◌then◌else◌, ℤ, pos, negsuc, some, List, arith,
  Bool-cases, inl, inr,
}
use cs350project.Bitmap.{find, test}
use cs350project.Bitmap.Search.{find_allocates}
use cs350project.Filesys.Directory
use cs350project.Filesys.Directory.{Directory, same_name}
use cs350project.Filesys.Directory.Map.{find-add}
use cs350project.Filesys.Header.{FileHeader, allocate}
use cs350project.Filesys.System.{Disk, write_header, create, header_at, open_file}
use cs350project.Filesys.System.Files.{create_lem, IsConsistent}

header_at_cases :
    (d d' : Disk) (x : ℤ) (sector : ℕ) (h : FileHeader)
    → d'.headers ≡ write_header d.headers sector h
    → x ≢ pos sector
    → header_at d' x ≡ header_at d x
header_at_cases d d' (negsuc i) sector h headers other = refl
header_at_cases d d' (pos s) sector h headers other =
    let apart : (sector == s) ≡ false = ground (arith, λ (e : s ≡ sector). other (ap pos e)) in
    ap some (ap (λ f. f s) headers ∙ ground (arith, apart))

-- On a consistent disk, after a `Create` that succeeds `Open` returns, for the new name and each
-- name that agrees with it in its first nine bytes, the header that `Allocate` filled from the
-- bitmap once the header's own sector was taken, and for every other name what it returned before.
pub open-create :
    (fresh : FileHeader) (d d' : Disk) (name other : List ℕ) (size : ℕ)
    → IsConsistent d
    → create fresh d name size ≡ some (d', true)
    → (h : FileHeader) × (allocate fresh (find d.free_map).0 size ≡ some (h, d'.free_map, true))
      × (open_file d' other ≡ (if same_name name other then some h else open_file d other))
unfolding open_file test
open-create fresh d d' name other size ok e =
    let c = create_lem fresh d d' name size e in
    let found : Directory.find d'.directory other
        ≡ (if same_name name other then pos c.sector else Directory.find d.directory other) =
      ap (λ t. Directory.find t other) c.directory
      ∙ find-add d.directory name (pos c.sector) other c.added in
    let a = find_allocates d.free_map c.free_map c.sector ok.sized c.taken in
    (
      c.header,
      ap (λ r. allocate fresh (r.0) size) c.taken ∙ c.filled,
      elim (Bool-cases (same_name name other)) [
        | inl same ↦
            let place : Directory.find d'.directory other ≡ pos c.sector =
              ground (arith, found, same) in
            rw (place, same) (ap (λ f. some (f c.sector)) c.headers ∙ ground arith)
        | inr different ↦
            let place : Directory.find d'.directory other ≡ Directory.find d.directory other =
              ground (arith, found, different) in
            let apart : Directory.find d.directory other ≢ pos c.sector =
              λ at. ground (arith, ok.marked other c.sector at, a.was_clear, a.inside) in
            rw (place, different)
              (header_at_cases d d' (Directory.find d.directory other) c.sector c.header c.headers
                apart)
      ],
    )
