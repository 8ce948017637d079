-- ===== src/Filesys/OpenFile.antt =====
-- filesys/openfile.cc over the sectors of filesys/synchdisk.cc: reads and writes of any part of a file.
-- Counts and positions are not negative.
pub mod Read
pub mod Write
mod Tests
use cs350project.Prelude.{
  ℕ, zero, suc, ◌+◌, ◌-◌, ◌*◌, ◌/◌, ltb, leb, ◌==◌, not, ◌&&◌, ◌||◌, Bool, true, false,
  if◌then◌else◌, ℤ, pos, negsuc, Option, none, some, min, and_then,
}
use cs350project.Filesys.Header.{FileHeader, byte_to_sector}

-- NumSectors
abbrev pub num_sectors : ℕ
num_sectors = 1024

-- The bytes of each sector of the disk, and a buffer.
abbrev pub Sectors : Type 0
Sectors = ℕ → ℕ → ℕ

abbrev pub Buffer : Type 0
Buffer = ℕ → ℕ

-- bcopy: `n` bytes from `off` on go to `base`.
abbrev pub copied : Buffer → ℕ → ℕ → Buffer → ℕ → Buffer
copied from off n into base a =
    if ltb a base then into a else if ltb (a - base) n then from (off + (a - base)) else into a

-- `ReadSector` to `base` in the buffer; `none` is a failed assertion of the disk.
abbrev pub read_sector : Option ℤ → Sectors → Buffer → ℕ → Option Buffer
read_sector (some (pos s)) disk buf base =
    if ltb s num_sectors then some (copied (disk s) 0 128 buf base) else none
read_sector _ disk buf base = none

abbrev pub put_sector : ℕ → Buffer → ℕ → Sectors → Sectors
put_sector s buf base disk t o = if s == t && ltb o 128 then buf (base + o) else disk t o

-- `WriteSector` from `base` in the buffer
abbrev pub write_sector : Option ℤ → Buffer → ℕ → Sectors → Option Sectors
write_sector (some (pos s)) buf base disk =
    if ltb s num_sectors then some (put_sector s buf base disk) else none
write_sector _ buf base disk = none

-- The loops over the sectors from `i` on; the buffer starts with the sector `first`.
unfoldable pub read_sectors : ℕ → ℕ → ℕ → FileHeader → Sectors → Buffer → Option Buffer
read_sectors zero i first h disk buf = some buf
read_sectors (suc n) i first h disk buf =
    and_then (read_sector (byte_to_sector h (i * 128)) disk buf ((i - first) * 128))
      λ buf'. read_sectors n (i + 1) first h disk buf'

unfoldable pub write_sectors : ℕ → ℕ → ℕ → FileHeader → Buffer → Sectors → Option Sectors
write_sectors zero i first h buf disk = some disk
write_sectors (suc n) i first h buf disk =
    and_then (write_sector (byte_to_sector h (i * 128)) buf ((i - first) * 128) disk)
      λ disk'. write_sectors n (i + 1) first h buf disk'

-- A request that asks for nothing, or that starts behind the end of the file.
abbrev pub refused : FileHeader → ℕ → ℕ → Bool
refused h num position = num == 0 || leb h.num_bytes position

-- A request is cut off at the end of the file.
abbrev pub clipped : FileHeader → ℕ → ℕ → ℕ
clipped h num position = min num (h.num_bytes - position)

abbrev pub last_sector : ℕ → ℕ → ℕ
last_sector n position = (position + n - 1) / 128

-- The body of `ReadAt` for `n` bytes; `stray` is what the fresh buffer holds.
abbrev pub read_part : FileHeader → Sectors → Buffer → Buffer → ℕ → ℕ → ℕ → Option (ℕ × Buffer)
read_part h disk stray into base n position =
    let first = position / 128 in
    and_then (read_sectors (1 + last_sector n position - first) first first h disk stray)
      λ buf. some (n, copied buf (position - first * 128) n into base)

-- `ReadAt` of `num` bytes to `base` in a buffer: how many bytes it read, and the buffer.
unfoldable pub read_at : FileHeader → Sectors → Buffer → Buffer → ℕ → ℕ → ℕ → Option (ℕ × Buffer)
read_at h disk stray into base num position =
    if refused h num position
    then some (0, into)
    else read_part h disk stray into base (clipped h num position) position

-- A whole sector of the file is read into the buffer of a write, or not.
abbrev pub fetch : Bool → FileHeader → Sectors → Buffer → ℕ → ℕ → Buffer → Option Buffer
fetch false h disk stray k base buf = some buf
fetch true h disk stray k base buf =
    and_then (read_at h disk stray buf base 128 (k * 128)) λ r. some r.1

-- The body of `WriteAt` for `n` bytes.
abbrev pub write_part : FileHeader → Sectors → Buffer → Buffer → ℕ → ℕ → Option (ℕ × Sectors)
write_part h disk stray from n position =
    let first = position / 128 in
    let last = last_sector n position in
    let first_aligned = position == first * 128 in
    let last_aligned = position + n == (last + 1) * 128 in
    and_then (fetch (not first_aligned) h disk stray first 0 stray) λ buf1.
      and_then
        (fetch (not last_aligned && (not (first == last) || first_aligned)) h disk stray last
          ((last - first) * 128) buf1)
        λ buf2.
          and_then
            (write_sectors (1 + last - first) first first h
              (copied from 0 n buf2 (position - first * 128)) disk)
            λ disk'. some (n, disk')

-- `WriteAt`: how many bytes it wrote, and the disk.
unfoldable pub write_at : FileHeader → Sectors → Buffer → Buffer → ℕ → ℕ → Option (ℕ × Sectors)
write_at h disk stray from num position =
    if refused h num position
    then some (0, disk)
    else write_part h disk stray from (clipped h num position) position

-- An open file: its header and `seekPosition`.
pub record OpenFile : Type 0 where
  pub header : FileHeader
  pub seek_position : ℕ

unfoldable pub seek : ℕ → OpenFile → OpenFile
seek position f = record f { seek_position = position }

-- `Read`
unfoldable pub read : OpenFile → Sectors → Buffer → Buffer → ℕ → Option (OpenFile × ℕ × Buffer)
read f disk stray into num =
    and_then (read_at f.header disk stray into 0 num f.seek_position)
      λ (n, into'). some (record f { seek_position = f.seek_position + n }, n, into')

-- `Write`
unfoldable pub write : OpenFile → Sectors → Buffer → Buffer → ℕ → Option (OpenFile × ℕ × Sectors)
write f disk stray from num =
    and_then (write_at f.header disk stray from num f.seek_position)
      λ (n, disk'). some (record f { seek_position = f.seek_position + n }, n, disk')
