-- ===== src/Filesys/OpenFile/Read.antt =====
-- A file as a flat array of bytes, and what `ReadAt` reads of it.
use cs350project.Prelude.{
  ℕ, zero, suc, ◌+◌, ◌-◌, ◌*◌, ◌/◌, ◌%◌, ◌<◌, ◌≤◌, ◌≡◌, refl, sym, ◌∙◌, ap, arith, ltb, leb, ◌&&◌,
  if◌then◌else◌, pos, some, and_then, Bool-cases, inl, inr,
}
use cs350project.Filesys.Header.{FileHeader, byte_to_sector}
use cs350project.Filesys.OpenFile.{
  Sectors, Buffer, copied, read_sector, read_sectors, refused, clipped, last_sector, read_part,
  read_at,
}

-- Each sector of the file has its own place on the disk.
pub record Placed (h : FileHeader) (sector : ℕ → ℕ) : Type 0 where
  pub found : (k : ℕ) → k * 128 < h.num_bytes → byte_to_sector h (k * 128) ≡ some (pos (sector k))
  pub on_disk : (k : ℕ) → k * 128 < h.num_bytes → sector k < 1024
  pub apart :
      (k j : ℕ) → k * 128 < h.num_bytes → j * 128 < h.num_bytes → sector k ≡ sector j → k ≡ j

-- The byte of the file at an offset.
abbrev pub byte : (ℕ → ℕ) → Sectors → ℕ → ℕ
byte sector disk i = disk (sector (i / 128)) (i % 128)

-- A byte of the sector `i`, by its offset in a buffer that starts with the sector `first`.
pub byte_in_sector :
    (sector : ℕ → ℕ) (disk : Sectors) (i first a : ℕ)
    → first ≤ i
    → (i - first) * 128 ≤ a
    → a - (i - first) * 128 < 128
    → disk (sector i) (0 + (a - (i - first) * 128)) ≡ byte sector disk (first * 128 + a)
byte_in_sector sector disk i first a le lo hi =
    let q : (first * 128 + a) / 128 ≡ i = omega arith in
    let r : (first * 128 + a) % 128 ≡ 0 + (a - (i - first) * 128) = omega arith in
    ap (λ k. disk (sector k) (0 + (a - (i - first) * 128))) (sym q)
    ∙ ap (disk (sector ((first * 128 + a) / 128))) (sym r)

module _ (h : FileHeader) (sector : ℕ → ℕ) (placed : Placed h sector) (disk : Sectors) where
  read_sectors-bytes :
      (n i first : ℕ) (buf : Buffer)
      → first ≤ i
      → ((k : ℕ) → k < i + n → k * 128 < h.num_bytes)
      → (buf' : Buffer) × (read_sectors n i first h disk buf ≡ some buf')
        × ((a : ℕ)
            → buf' a ≡ (
                if leb ((i - first) * 128) a && ltb a ((i - first + n) * 128)
                then byte sector disk (first * 128 + a)
                else buf a))
  unfolding read_sectors
  read_sectors-bytes zero i first buf le inside = (buf, refl, λ a. ground arith)
  read_sectors-bytes (suc n) i first buf le inside =
      let here : i * 128 < h.num_bytes = inside i (omega arith) in
      let base = (i - first) * 128 in
      let buf1 = copied (disk (sector i)) 0 128 buf base in
      let got : read_sector (byte_to_sector h (i * 128)) disk buf base ≡ some buf1 =
        ap (λ o. read_sector o disk buf base) (placed.found i here)
        ∙ ground (arith, placed.on_disk i here) in
      let (buf', went, rest) =
        read_sectors-bytes n (i + 1) first buf1 (omega arith) (λ k lt. inside k (omega arith)) in
      (
        buf',
        ap (λ o. and_then o λ b. read_sectors n (i + 1) first h disk b) got ∙ went,
        λ a.
            rest a
            ∙ ground (
              arith,
              λ (lo : base ≤ a).
                  λ (hi : a - base < 128). byte_in_sector sector disk i first a le lo hi,
            ),
      )

  -- The sectors of a request that is not empty lie in the file.
  in_file :
      (n position k : ℕ)
      → 0 < n
      → position + n ≤ h.num_bytes
      → k < position / 128 + (1 + last_sector n position - position / 128)
      → k * 128 < h.num_bytes
  in_file n position k some_bytes fits lt = omega arith

  read_part-bytes :
      (stray into : Buffer) (base n position : ℕ)
      → 0 < n
      → position + n ≤ h.num_bytes
      → (into' : Buffer) × (read_part h disk stray into base n position ≡ some (n, into'))
        × ((a : ℕ)
            → into' a ≡ (
                if leb base a && ltb a (base + n)
                then byte sector disk (position + (a - base))
                else into a))
  read_part-bytes stray into base n position some_bytes fits =
      let first = position / 128 in
      let count = 1 + last_sector n position - first in
      let (buf, went, bytes) =
        read_sectors-bytes count first first stray (omega arith)
          (λ k lt. in_file n position k some_bytes fits lt) in
      (
        copied buf (position - first * 128) n into base,
        ap (λ o. and_then o λ buf. some (n, copied buf (position - first * 128) n into base)) went,
        λ a.
            let off : first * 128 + (position - first * 128 + (a - base)) ≡ position + (a - base) =
              omega arith in
            let at_off = ap (byte sector disk) off in
            ground (arith, bytes (position - first * 128 + (a - base)), at_off),
      )

-- `ReadAt` of a file whose sectors are placed on the disk succeeds: it reads as many bytes as were asked
-- for and lie in the file, those of the file from the position on, and leaves the rest of the buffer.
pub read_at-bytes :
    (h : FileHeader) (sector : ℕ → ℕ) (disk : Sectors) (stray into : Buffer) (base num position : ℕ)
    → Placed h sector
    → (into' : Buffer) × (read_at h disk stray into base num position
        ≡ some (clipped h num position, into'))
      × ((a : ℕ)
          → into' a ≡ (
              if leb base a && ltb a (base + clipped h num position)
              then byte sector disk (position + (a - base))
              else into a))
unfolding read_at
read_at-bytes h sector disk stray into base num position placed =
    elim (Bool-cases (refused h num position)) [
      | inl nothing ↦
          let zero_bytes : clipped h num position ≡ 0 = ground (arith, nothing) in
          (into, rw (nothing, zero_bytes) refl, λ a. ground (arith, zero_bytes))
      | inr some_bytes ↦
          let n = clipped h num position in
          let (into', went, bytes) =
            read_part-bytes h sector placed disk stray into base n position
              (ground (arith, some_bytes)) (ground (arith, some_bytes)) in
          (into', rw some_bytes went, bytes)
    ]
