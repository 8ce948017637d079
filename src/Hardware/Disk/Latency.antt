-- ===== src/Hardware/Disk/Latency.antt =====
-- Bounds on the latency of the disk, and where its head is.
use cs350project.Prelude.{ℕ, ◌+◌, ◌*◌, ◌/◌, ◌%◌, ◌<◌, ◌≤◌, ◌≡◌, arith, ◌==◌, ◌&&◌, not, Bool, false}
use cs350project.Hardware.Disk.{
  Disk, distance, time_to_seek, modulo_diff, buffered_past, update_last,
}

-- Turning by `ModuloDiff` from one sector of a track reaches the other.
pub modulo_diff-reaches : (to from : ℕ) → (from + modulo_diff to from) % 32 ≡ to % 32
unfolding modulo_diff
modulo_diff-reaches to from = omega arith

-- A read that the track buffer serves: of the track that the head is on, when the sector has passed the head,
-- from end to end, after the buffer began to be filled and by the time the sector that passes now is over.
pub record Buffered (new_sector : ℕ) (writing : Bool) (d : Disk) : Type 0 where
  pub reads : writing ≡ false
  pub on_track : new_sector / 32 ≡ d.last_sector / 32
  pub turn : ℕ
  pub filled : d.buffer_init ≤ turn * 500
  pub passed : (turn + 1) * 500 < d.total_ticks + 500
  pub same_sector : turn % 32 ≡ new_sector % 32

-- The request ends at the end of a sector, when the one that was asked for has just passed, for the first
-- time after the seek.
abbrev pub Turned : ℕ → Disk → ℕ → Type 0
Turned new_sector d latency =
    let seek = distance (new_sector / 32) (d.last_sector / 32) * 500 in
    ((d.total_ticks + latency) % 500 ≡ 0)
    × ((d.total_ticks + latency) / 500 % 32 ≡ (new_sector + 1) % 32)
    × (seek + 500 ≤ latency)
    × (latency < seek + 500 + 32 * 500)

abbrev serves : ℕ → Bool → Disk → Bool
serves new_sector writing d =
    let (seek, rotation) = time_to_seek new_sector d in
    not writing
    && (seek == 0
        && buffered_past (d.total_ticks + seek + rotation) d.buffer_init
            (modulo_diff new_sector (d.buffer_init / 500)))

-- `UpdateLast` keeps the start of the track buffer at a sector's boundary.
pub update_last-aligned :
    (new_sector : ℕ) (d : Disk)
    → d.buffer_init % 500 ≡ 0
    → (update_last new_sector d).buffer_init % 500 ≡ 0
unfolding update_last time_to_seek
update_last-aligned new_sector d h = ground arith

-- After a request for a sector the head is on its track: another request for that sector seeks not at
-- all, at any time.
pub update_last-stays :
    (new_sector now : ℕ) (d : Disk)
    → (time_to_seek new_sector (record (update_last new_sector d) { total_ticks = now })).0 ≡ 0
unfolding time_to_seek update_last
update_last-stays new_sector now d = ground arith
