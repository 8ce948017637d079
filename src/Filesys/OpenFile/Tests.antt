-- ===== src/Filesys/OpenFile/Tests.antt =====
-- Reads and writes of a file of 200 bytes in two sectors.
use cs350project.Prelude.{
  ℕ, zero, suc, ◌+◌, ◌-◌, ◌*◌, ◌<◌, ◌≡◌, refl, arith, ltb, leb, ◌==◌, ◌&&◌, if◌then◌else◌, pos,
  some, [], ◌∷◌,
}
use cs350project.Filesys.Header.{FileHeader, byte_to_sector}
use cs350project.Filesys.OpenFile.{Sectors, Buffer, read_at, write_at}
use cs350project.Filesys.OpenFile.Read.{Placed, byte, read_at-bytes}
use cs350project.Filesys.OpenFile.Write.{write_at-bytes}

abbrev header : FileHeader
header = record { num_bytes = 200; num_sectors = 2; data_sectors = pos 5 ∷ pos 9 ∷ [] }

abbrev sector : ℕ → ℕ
sector k = if k == 0 then 5 else 9

located : (k : ℕ) → k * 128 < 200 → byte_to_sector header (k * 128) ≡ some (pos (sector k))
unfolding byte_to_sector
located zero lt = refl
located (suc zero) lt = refl
located (suc (suc k)) lt = absurd (omega arith)

header-Placed : Placed header sector
header-Placed = record {
  found = located;
  on_disk = λ k lt. ground arith;
  apart = λ k j hk hj e. ground (arith, e);
}

abbrev disk : Sectors
disk s o = s + o

read_at-bytes_example :
    (into' : Buffer) × (read_at header disk (λ a. 0) (λ a. 1) 3 100 120 ≡ some (80, into'))
    × ((a : ℕ) → into' a ≡ (if leb 3 a && ltb a 83 then byte sector disk (120 + (a - 3)) else 1))
read_at-bytes_example = read_at-bytes header sector disk (λ a. 0) (λ a. 1) 3 100 120 header-Placed

write_at-bytes_example :
    (disk' : Sectors) × (write_at header disk (λ a. 0) (λ a. 7) 20 120 ≡ some (20, disk'))
    × ((i : ℕ)
        → i < 200
        → byte sector disk' i ≡ (if leb 120 i && ltb i 140 then 7 else byte sector disk i))
write_at-bytes_example = write_at-bytes header sector disk (λ a. 0) (λ a. 7) 20 120 header-Placed
