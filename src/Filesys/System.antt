-- ===== src/Filesys/System.antt =====
-- filesys/filesys.cc: creating, opening and removing a file.
pub mod Files
pub mod Opened
pub mod Consistent
pub mod Undo
pub mod Format
use cs350project.Prelude.{
  and_then, ℕ, zero, suc, ◌==◌, Bool, true, false, if◌then◌else◌, ℤ, pos, negsuc, Option, none,
  some, List,
}
use cs350project.Bitmap.{BitMap, new_bitmap, mark, find, clear}
use cs350project.Filesys.Directory.{DirectoryEntry, Directory, new_directory}
use cs350project.Filesys.Directory
use cs350project.Filesys.Header.{FileHeader, allocate, deallocate}

-- The disk: the contents of the bitmap's and the directory's file, and the header in each sector.
-- What files hold in their data sectors is left out.
pub record Disk : Type 0 where
  pub free_map : BitMap
  pub directory : Directory
  pub headers : ℕ → FileHeader

abbrev pub write_header : (ℕ → FileHeader) → ℕ → FileHeader → ℕ → FileHeader
write_header headers sector h s = if sector == s then h else headers s

-- The end of `Create`: the changes are flushed only when everything worked.  Here and below `none`
-- is a failed ASSERT or an access past a header's array.
abbrev pub flush_created :
    Disk → Directory → ℕ → Option (FileHeader × BitMap × Bool) → Option (Disk × Bool)
flush_created d directory sector none = none
flush_created d directory sector (some (h, free_map, false)) = some (d, false)
flush_created d directory sector (some (h, free_map, true)) = some (
  record { free_map = free_map; directory = directory; headers = write_header d.headers sector h },
  true,
)

abbrev pub create_added :
    FileHeader → Disk → ℕ → BitMap → ℕ → Directory × Bool → Option (Disk × Bool)
create_added fresh d size free_map sector (directory, false) = some (d, false)
create_added fresh d size free_map sector (directory, true) =
    flush_created d directory sector (allocate fresh free_map size)

-- `Find` of the bitmap returns no negative number but -1.
abbrev pub create_in : FileHeader → Disk → List ℕ → ℕ → BitMap × ℤ → Option (Disk × Bool)
create_in fresh d name size (free_map, negsuc i) = some (d, false)
create_in fresh d name size (free_map, pos sector) =
    create_added fresh d size free_map sector (Directory.add d.directory name (pos sector))

abbrev pub create_new : FileHeader → Disk → List ℕ → ℕ → ℤ → Option (Disk × Bool)
create_new fresh d name size (pos known) = some (d, false)
create_new fresh d name size (negsuc (suc i)) = some (d, false)
create_new fresh d name size (negsuc zero) = create_in fresh d name size (find d.free_map)

-- `FileSystem::Create`, over fresh memory for the header
unfoldable pub create : FileHeader → Disk → List ℕ → ℕ → Option (Disk × Bool)
create fresh d name size = create_new fresh d name size (Directory.find d.directory name)

abbrev pub header_at : Disk → ℤ → Option FileHeader
header_at d (pos sector) = some (d.headers sector)
header_at d (negsuc i) = none

-- `FileSystem::Open`: the header that the new `OpenFile` fetches, or `none` for NULL.
unfoldable pub open_file : Disk → List ℕ → Option FileHeader
open_file d name = header_at d (Directory.find d.directory name)

-- Nor does `Find` of a directory that was filled by `Create`.
abbrev pub remove_at : Disk → List ℕ → ℤ → Option (Disk × Bool)
remove_at d name (negsuc i) = some (d, false)
remove_at d name (pos sector) = and_then (deallocate (d.headers sector) d.free_map) λ free_map.
    and_then (clear free_map (pos sector)) λ free_map'.
      some
        (record d { free_map = free_map'; directory = (Directory.remove d.directory name).0 }, true)

-- `FileSystem::Remove`
unfoldable pub remove : Disk → List ℕ → Option (Disk × Bool)
remove d name = remove_at d name (Directory.find d.directory name)

-- `ASSERT(hdr->Allocate(...))`
abbrev pub must_allocate : Option (FileHeader × BitMap × Bool) → Option (FileHeader × BitMap)
must_allocate none = none
must_allocate (some (h, free_map, false)) = none
must_allocate (some (h, free_map, true)) = some (h, free_map)

-- `FileSystem::FileSystem` with format: 1024 sectors, the headers of the bitmap's and of the
-- directory's file in sectors 0 and 1, and 128 and 200 bytes for the two files.  An entry of the
-- directory takes 20 bytes, and there are ten.
unfoldable pub format :
    List ℕ → List DirectoryEntry → FileHeader → FileHeader → (ℕ → FileHeader) → Option Disk
format words entries fresh_map fresh_dir old =
    and_then (mark (new_bitmap words 1024) (pos 0)) λ map1. and_then (mark map1 (pos 1)) λ map2.
      and_then (must_allocate (allocate fresh_map map2 128)) λ (map_hdr, map3).
        and_then (must_allocate (allocate fresh_dir map3 200)) λ (dir_hdr, map4). some (record {
          free_map = map4;
          directory = new_directory entries;
          headers = write_header (write_header old 0 map_hdr) 1 dir_hdr;
        })
