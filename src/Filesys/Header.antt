-- ===== src/Filesys/Header.antt =====
-- filesys/filehdr.cc: the sectors of a file, taken from the bitmap of free sectors.
pub mod Sectors
pub mod Space
use cs350project.Prelude.{
  ℕ, zero, suc, ◌+◌, ◌/◌, ltb, Bool, true, false, if◌then◌else◌, ℤ, pos, minus_one, Option, none,
  some, List, set, get_or, and_then,
}
use cs350project.Bitmap.{BitMap, div_round_up, find, num_clear, test, clear}

abbrev pub sector_size : ℕ
sector_size = 128

-- `NumDirect`: two integers and as many sectors as fit fill one sector.
abbrev pub num_direct : ℕ
num_direct = 30

-- `data_sectors` is the array of `num_direct` sectors.
pub record FileHeader : Type 0 where
  pub num_bytes : ℕ
  pub num_sectors : ℕ
  pub data_sectors : List ℤ

-- The loop of `Allocate` from sector `i` on; `none` is a write past the array.
unfoldable pub take_sectors : ℕ → ℕ → List ℤ → BitMap → Option (List ℤ × BitMap)
take_sectors zero i sectors free_map = some (sectors, free_map)
take_sectors (suc n) i sectors free_map =
    let (free_map', sector) = find free_map in
    let rest = take_sectors n (i + 1) (set sectors i sector) free_map' in
    if ltb i num_direct then rest else none

abbrev pub with_sectors :
    FileHeader → Option (List ℤ × BitMap) → Option (FileHeader × BitMap × Bool)
with_sectors h none = none
with_sectors h (some (sectors, free_map)) =
    some (record h { data_sectors = sectors }, free_map, true)

-- `Allocate`, of a size that is not negative
unfoldable pub allocate : FileHeader → BitMap → ℕ → Option (FileHeader × BitMap × Bool)
allocate h free_map file_size =
    let n = div_round_up file_size sector_size in
    let h' : FileHeader = record h { num_bytes = file_size; num_sectors = n } in
    if ltb (num_clear free_map) n
    then some (h', free_map, false)
    else with_sectors h' (take_sectors n 0 h'.data_sectors free_map)

-- A sector has to be marked to be given back; `none` is a failed ASSERT.
abbrev pub release_marked : BitMap → ℤ → Option Bool → Option BitMap
release_marked free_map sector none = none
release_marked free_map sector (some false) = none
release_marked free_map sector (some true) = clear free_map sector

abbrev pub release_sector : BitMap → ℤ → Option BitMap
release_sector free_map sector = release_marked free_map sector (test free_map sector)

-- The loop of `Deallocate` from sector `i` on; `none` is a failed ASSERT or a read past the array.
unfoldable pub give_back : ℕ → ℕ → List ℤ → BitMap → Option BitMap
give_back zero i sectors free_map = some free_map
give_back (suc n) i sectors free_map =
    if ltb i num_direct
    then and_then (release_sector free_map (get_or sectors i minus_one))
        (give_back n (i + 1) sectors)
    else none

-- `Deallocate`
unfoldable pub deallocate : FileHeader → BitMap → Option BitMap
deallocate h free_map = give_back h.num_sectors 0 h.data_sectors free_map

-- `ByteToSector`; `none` is a read past the array.
unfoldable pub byte_to_sector : FileHeader → ℕ → Option ℤ
byte_to_sector h offset =
    let i = offset / sector_size in
    if ltb i num_direct then some (get_or h.data_sectors i minus_one) else none
