-- ===== src/Filesys/System/Files.antt =====
-- Files that are created, opened and removed.
use cs350project.Prelude.{
  ℕ, zero, suc, ◌≡◌, refl, sym, ap, ◌∙◌, Bool, true, false, ℤ, pos, negsuc, minus_one, Option, none,
  some, List, arith,
}
use cs350project.Bitmap.{BitMap, test_bit, find}
use cs350project.Bitmap.Laws.{IsSized}
use cs350project.Filesys.Directory
use cs350project.Filesys.Directory.{Directory, same_name}
use cs350project.Filesys.Directory.Laws.{Unique}
use cs350project.Filesys.Header.{FileHeader, allocate}
use cs350project.Filesys.System.{
  Disk, write_header, flush_created, create_added, create_in, create_new, create,
}

module _ (fresh : FileHeader) (d d' : Disk) (name : List ℕ) (size : ℕ) where
  flush_fails :
      (directory : Directory) (sector : ℕ) (o : Option (FileHeader × BitMap × Bool))
      → flush_created d directory sector o ≡ some (d', false)
      → d' ≡ d
  flush_fails directory sector none e = absurd (cc)
  flush_fails directory sector (some (h, free_map, false)) e = ground arith
  flush_fails directory sector (some (h, free_map, true)) e = absurd (ground (arith, e))

  added_fails :
      (free_map : BitMap) (sector : ℕ) (r : Directory × Bool)
      → create_added fresh d size free_map sector r ≡ some (d', false)
      → d' ≡ d
  added_fails free_map sector (directory, false) e = ground arith
  added_fails free_map sector (directory, true) e = flush_fails directory sector _ e

  in_fails : (r : BitMap × ℤ) → create_in fresh d name size r ≡ some (d', false) → d' ≡ d
  in_fails (free_map, negsuc i) e = ground arith
  in_fails (free_map, pos sector) e = added_fails free_map sector _ e

  new_fails : (s : ℤ) → create_new fresh d name size s ≡ some (d', false) → d' ≡ d
  new_fails (pos known) e = ground arith
  new_fails (negsuc (suc i)) e = ground arith
  new_fails (negsuc zero) e = in_fails (find d.free_map) e

  -- A `Create` that fails leaves the disk as it was: the bitmap, the directory and the headers.
  pub create_fails : create fresh d name size ≡ some (d', false) → d' ≡ d
  unfolding create
  create_fails e = new_fails (Directory.find d.directory name) e

  -- What a successful `Create` did.
  pub record Created : Type 0 where
    pub sector : ℕ
    pub free_map : BitMap
    pub header : FileHeader
    pub was_new : Directory.find d.directory name ≡ minus_one
    pub taken : find d.free_map ≡ (free_map, pos sector)
    pub added : (Directory.add d.directory name (pos sector)).1 ≡ true
    pub filled : allocate fresh free_map size ≡ some (header, d'.free_map, true)
    pub directory : d'.directory ≡ (Directory.add d.directory name (pos sector)).0
    pub headers : d'.headers ≡ write_header d.headers sector header

  flushed :
      (directory : Directory) (sector : ℕ) (o : Option (FileHeader × BitMap × Bool))
      → flush_created d directory sector o ≡ some (d', true)
      → (header : FileHeader) × (o ≡ some (header, d'.free_map, true))
        × (d'.directory ≡ directory)
        × (d'.headers ≡ write_header d.headers sector header)
  flushed directory sector none e = absurd (cc)
  flushed directory sector (some (h, free_map, false)) e = absurd (ground (arith, e))
  flushed directory sector (some (h, free_map, true)) e =
      let disk : Disk = record {
        free_map = free_map;
        directory = directory;
        headers = write_header d.headers sector h;
      } in
      let same : disk ≡ d' = ground (arith, e) in
      (
        h,
        ap (λ x. some (h, x.free_map, true)) same,
        sym (ap (λ x. x.directory) same),
        sym (ap (λ x. x.headers) same),
      )

  created_added :
      (free_map : BitMap) (sector : ℕ) (r : Directory × Bool)
      → Directory.find d.directory name ≡ minus_one
      → find d.free_map ≡ (free_map, pos sector)
      → Directory.add d.directory name (pos sector) ≡ r
      → create_added fresh d size free_map sector r ≡ some (d', true)
      → Created
  created_added free_map sector (directory, false) new taken added e = absurd (ground (arith, e))
  created_added free_map sector (directory, true) new taken added e =
      let (header, filled, same, headers) = flushed directory sector _ e in
      record {
        sector = sector;
        free_map = free_map;
        header = header;
        was_new = new;
        taken = taken;
        added = ap (λ r. r.1) added;
        filled = filled;
        directory = same ∙ sym (ap (λ r. r.0) added);
        headers = headers;
      }

  created_in :
      (r : BitMap × ℤ)
      → Directory.find d.directory name ≡ minus_one
      → find d.free_map ≡ r
      → create_in fresh d name size r ≡ some (d', true)
      → Created
  created_in (free_map, negsuc i) new taken e = absurd (ground (arith, e))
  created_in (free_map, pos sector) new taken e = created_added free_map sector _ new taken refl e

  created_new :
      (s : ℤ)
      → Directory.find d.directory name ≡ s
      → create_new fresh d name size s ≡ some (d', true)
      → Created
  created_new (pos known) new e = absurd (ground (arith, e))
  created_new (negsuc (suc i)) new e = absurd (ground (arith, e))
  created_new (negsuc zero) new e = created_in (find d.free_map) new refl e

  pub create_lem : create fresh d name size ≡ some (d', true) → Created
  unfolding create
  create_lem e = created_new (Directory.find d.directory name) refl e

-- The disk that the file system keeps: the bitmap holds its bits, no two names are the same, and
-- the header sector of each file is marked.
pub record IsConsistent (d : Disk) : Type 0 where
  pub sized : IsSized d.free_map
  pub unique : Unique d.directory.table
  pub marked :
      (name : List ℕ) (s : ℕ)
      → Directory.find d.directory name ≡ pos s
      → test_bit d.free_map s ≡ true
