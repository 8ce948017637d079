-- ===== src/Filesys/OpenFile/Write.antt =====
-- `WriteAt` is a write to the flat array of the file's bytes.
use cs350project.Prelude.{
  ℕ, zero, suc, ◌+◌, ◌-◌, ◌*◌, ◌/◌, ◌%◌, ◌<◌, ◌≤◌, ◌≡◌, ◌≢◌, refl, ◌∙◌, ap, arith, ltb, leb, ◌==◌,
  not, ◌&&◌, ◌||◌, Bool, true, false, if◌then◌else◌, some, and_then, Bool-cases, inl, inr, ==_iff,
}
use cs350project.Filesys.Header.{FileHeader, byte_to_sector}
use cs350project.Filesys.OpenFile.{
  Sectors, Buffer, copied, put_sector, write_sector, write_sectors, refused, clipped, last_sector,
  fetch, write_part, write_at,
}
use cs350project.Filesys.OpenFile.Read.{Placed, byte, read_at-bytes}

module _ (h : FileHeader) (sector : ℕ → ℕ) (placed : Placed h sector) where
  -- The sector of `k` after the sector of `i` was written.
  put_sector-at :
      (i k base o : ℕ) (buf : Buffer) (disk : Sectors)
      → i * 128 < h.num_bytes
      → k * 128 < h.num_bytes
      → o < 128
      → put_sector (sector i) buf base disk (sector k) o
        ≡ (if i == k then buf (base + o) else disk (sector k) o)
  put_sector-at i k base o buf disk hi hk lt = elim (Bool-cases (sector i == sector k)) [
    | inl same ↦
        let eq : i ≡ k = placed.apart i k hi hk ((==_iff (sector i) (sector k)).0 same) in
        ground (arith, same, eq, lt)
    | inr other ↦
        let ne : i ≢ k = λ e. absurd (ground (arith, other, ap sector e)) in
        ground (arith, other, ne)
  ]

  write_sectors-bytes :
      (n i first : ℕ) (buf : Buffer) (disk : Sectors)
      → first ≤ i
      → ((k : ℕ) → k < i + n → k * 128 < h.num_bytes)
      → (disk' : Sectors) × (write_sectors n i first h buf disk ≡ some disk')
        × ((k o : ℕ)
            → k * 128 < h.num_bytes
            → o < 128
            → disk' (sector k) o ≡ (
                if leb i k && ltb k (i + n)
                then buf ((k - first) * 128 + o)
                else disk (sector k) o))
  unfolding write_sectors
  write_sectors-bytes zero i first buf disk le inside = (disk, refl, λ k o hk lt. ground arith)
  write_sectors-bytes (suc n) i first buf disk le inside =
      let here : i * 128 < h.num_bytes = inside i (omega arith) in
      let base = (i - first) * 128 in
      let disk1 = put_sector (sector i) buf base disk in
      let put : write_sector (byte_to_sector h (i * 128)) buf base disk ≡ some disk1 =
        ap (λ o. write_sector o buf base disk) (placed.found i here)
        ∙ ground (arith, placed.on_disk i here) in
      let (disk', went, rest) =
        write_sectors-bytes n (i + 1) first buf disk1 (omega arith)
          (λ k lt. inside k (omega arith)) in
      (
        disk',
        ap (λ o. and_then o λ d. write_sectors n (i + 1) first h buf d) put ∙ went,
        λ k o hk lt.
            rest k o hk lt
            ∙ ground (
              arith,
              put_sector-at i k base o buf disk here hk lt,
              λ (e : i ≡ k). ap (λ j. buf ((j - first) * 128 + o)) e,
            ),
      )

  fetch-bytes :
      (b : Bool) (disk : Sectors) (stray buf : Buffer) (k base : ℕ)
      → (buf' : Buffer) × (fetch b h disk stray k base buf ≡ some buf')
        × ((a : ℕ)
            → buf' a ≡ (
                if b && (leb base a && ltb a (base + clipped h 128 (k * 128)))
                then byte sector disk (k * 128 + (a - base))
                else buf a))
  fetch-bytes false disk stray buf k base = (buf, refl, λ a. refl)
  fetch-bytes true disk stray buf k base =
      let (buf', went, bytes) = read_at-bytes h sector disk stray buf base 128 (k * 128) placed in
      (buf', ap (λ o. and_then o λ r. some r.1) went, bytes)

  module _ (disk : Sectors) (stray from : Buffer) (n position : ℕ) (some_bytes : 0 < n)
      (fits : position + n ≤ h.num_bytes) where
    abbrev first : ℕ
    first = position / 128

    abbrev last : ℕ
    last = last_sector n position

    abbrev starts_inside : Bool
    starts_inside = not (position == first * 128)

    abbrev ends_inside : Bool
    ends_inside =
        not (position + n == (last + 1) * 128) && (not (first == last) || position == first * 128)

    -- A byte of the buffer that is not written is the file's.
    buffer_kept :
        (buf1 buf2 : Buffer) (i : ℕ)
        → ((a : ℕ)
            → buf1 a ≡ (
                if starts_inside && (leb 0 a && ltb a (0 + clipped h 128 (first * 128)))
                then byte sector disk (first * 128 + (a - 0))
                else stray a))
        → ((a : ℕ)
            → buf2 a ≡ (
                if ends_inside
                  && (leb ((last - first) * 128) a
                      && ltb a ((last - first) * 128 + clipped h 128 (last * 128)))
                then byte sector disk (last * 128 + (a - (last - first) * 128))
                else buf1 a))
        → i < h.num_bytes
        → first ≤ i / 128
        → i / 128 ≤ last
        → (leb position i && ltb i (position + n)) ≡ false
        → buf2 (i - first * 128) ≡ byte sector disk i
    buffer_kept buf1 buf2 i bytes1 bytes2 inside lo hi outside =
        let x = i - first * 128 in
        let e1 : first * 128 + (x - 0) ≡ i = omega arith in
        let e2 = λ (p : (last - first) * 128 ≤ x).
          let e : last * 128 + (x - (last - first) * 128) ≡ i = omega arith in
          ap (byte sector disk) e in
        ground (arith, bytes1 x, bytes2 x, ap (byte sector disk) e1, e2)

    write_part-bytes :
        (disk' : Sectors) × (write_part h disk stray from n position ≡ some (n, disk'))
        × ((i : ℕ)
            → i < h.num_bytes
            → byte sector disk' i ≡ (
                if leb position i && ltb i (position + n)
                then from (i - position)
                else byte sector disk i))
    write_part-bytes =
        let (buf1, got1, bytes1) = fetch-bytes starts_inside disk stray stray first 0 in
        let (buf2, got2, bytes2) =
          fetch-bytes ends_inside disk stray buf1 last ((last - first) * 128) in
        let buf3 = copied from 0 n buf2 (position - first * 128) in
        let (disk', went, bytes) =
          write_sectors-bytes (1 + last - first) first first buf3 disk (omega arith)
            (λ k lt. omega arith) in
        (
          disk',
          ap
                (λ o. and_then o λ b1.
                  and_then (fetch ends_inside h disk stray last ((last - first) * 128) b1) λ b2.
                    and_then
                      (write_sectors (1 + last - first) first first h
                        (copied from 0 n b2 (position - first * 128)) disk)
                      λ d. some (n, d))
                got1
              ∙ (ap
                    (λ o. and_then o λ b2.
                      and_then
                        (write_sectors (1 + last - first) first first h
                          (copied from 0 n b2 (position - first * 128)) disk)
                        λ d. some (n, d))
                    got2
                  ∙ ap (λ o. and_then o λ d. some (n, d)) went),
          λ i inside.
              let k_in : i / 128 * 128 < h.num_bytes = omega arith in
              let there = bytes (i / 128) (i % 128) k_in (omega arith) in
              let x = λ (lo : first ≤ i / 128).
                let e : (i / 128 - first) * 128 + i % 128 ≡ i - first * 128 = omega arith in
                ap buf3 e in
              let y = λ (lo : position ≤ i).
                let e : 0 + (i - first * 128 - (position - first * 128)) ≡ i - position =
                  omega arith in
                ap from e in
              let kept = buffer_kept buf1 buf2 i bytes1 bytes2 inside in
              there ∙ ground (arith, x, y, kept),
        )

-- `WriteAt` of a file whose sectors are placed on the disk succeeds: it writes as many bytes as were given
-- and lie in the file. The bytes of the file from the position on are then those that were given,
-- and every other byte of the file is as before, also in the sectors that are written in part.
pub write_at-bytes :
    (h : FileHeader) (sector : ℕ → ℕ) (disk : Sectors) (stray from : Buffer) (num position : ℕ)
    → Placed h sector
    → (disk' : Sectors) × (write_at h disk stray from num position
        ≡ some (clipped h num position, disk'))
      × ((i : ℕ)
          → i < h.num_bytes
          → byte sector disk' i ≡ (
              if leb position i && ltb i (position + clipped h num position)
              then from (i - position)
              else byte sector disk i))
unfolding write_at
write_at-bytes h sector disk stray from num position placed =
    elim (Bool-cases (refused h num position)) [
      | inl nothing ↦
          let zero_bytes : clipped h num position ≡ 0 = ground (arith, nothing) in
          (disk, rw (nothing, zero_bytes) refl, λ i lt. ground (arith, zero_bytes))
      | inr given ↦
          let n = clipped h num position in
          let (disk', went, bytes) =
            write_part-bytes h sector placed disk stray from n position (ground (arith, given))
              (ground (arith, given)) in
          (disk', rw given went, bytes)
    ]
