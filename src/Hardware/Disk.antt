-- ===== src/Hardware/Disk.antt =====
-- machine/disk.cc: how long the simulated disk takes for a request.  Sectors and times are not negative.
pub mod Latency
use cs350project.Prelude.{
  ℕ, ◌+◌, ◌-◌, ◌*◌, ◌/◌, ◌%◌, ltb, ◌==◌, ◌&&◌, not, Bool, true, false, if◌then◌else◌,
}

-- SectorsPerTrack, RotationTime and SeekTime
abbrev pub sectors_per_track : ℕ
sectors_per_track = 32

abbrev pub rotation_time : ℕ
rotation_time = 500

abbrev pub seek_time : ℕ
seek_time = 500

-- The disk, and the time now.
pub record Disk : Type 0 where
  pub last_sector : ℕ
  pub buffer_init : ℕ
  pub total_ticks : ℕ

abbrev pub distance : ℕ → ℕ → ℕ
distance a b = (a - b) + (b - a)

-- `TimeToSeek`: the time to the track, and the rest of the sector that passes then.
unfoldable pub time_to_seek : ℕ → Disk → ℕ × ℕ
time_to_seek new_sector d =
    let seek =
      distance (new_sector / sectors_per_track) (d.last_sector / sectors_per_track) * seek_time in
    let over = (d.total_ticks + seek) % rotation_time in
    (seek, if ltb 0 over then rotation_time - over else 0)

-- `ModuloDiff`
unfoldable pub modulo_diff : ℕ → ℕ → ℕ
modulo_diff to from =
    (to % sectors_per_track + sectors_per_track - from % sectors_per_track) % sectors_per_track

-- `(timeAfter - bufferInit) / RotationTime > n`, where the difference may be negative.
abbrev pub buffered_past : ℕ → ℕ → ℕ → Bool
buffered_past time_after buffer_init n = ltb n ((time_after - buffer_init) / rotation_time)

-- `ComputeLatency`
unfoldable pub compute_latency : ℕ → Bool → Disk → ℕ
compute_latency new_sector writing d =
    let (seek, rotation) = time_to_seek new_sector d in
    let time_after = d.total_ticks + seek + rotation in
    if not writing
      && (seek == 0
          && buffered_past time_after d.buffer_init
              (modulo_diff new_sector (d.buffer_init / rotation_time)))
    then rotation_time
    else seek
      + (rotation + modulo_diff new_sector (time_after / rotation_time) * rotation_time)
      + rotation_time

-- `UpdateLast`
unfoldable pub update_last : ℕ → Disk → Disk
update_last new_sector d =
    let (seek, rotate) = time_to_seek new_sector d in
    record d {
      buffer_init = if seek == 0 then d.buffer_init else d.total_ticks + seek + rotate;
      last_sector = new_sector;
    }
