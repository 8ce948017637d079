-- ===== src/Filesys/Header/Space.antt =====
-- `Allocate` and `Deallocate` of a file header against the bitmap of free sectors.
use cs350project.Prelude.{
  ℕ, zero, suc, ◌+◌, ◌≤◌, ◌<◌, ◌≡◌, refl, ap, subst, ◌∙◌, ltb, true, false, ℤ, none, some, List,
  length, arith, tests, Bool-cases, inl, inr,
}
use cs350project.Bitmap.{BitMap, div_round_up, test_bit, num_clear}
use cs350project.Bitmap.Laws.{IsSized}
use cs350project.Bitmap.View.{view, bits_from, same_bits}
use cs350project.Filesys.Header.{
  FileHeader, sector_size, num_direct, take_sectors, allocate, deallocate,
}
use cs350project.Filesys.Header.Sectors.{GivesBack, take_sectors_lem}

abbrev pub sectors_for : ℕ → ℕ
sectors_for size = div_round_up size sector_size

too_many :
    (n i : ℕ) (sectors : List ℤ) (b : BitMap)
    → i ≤ num_direct
    → num_direct < i + n
    → take_sectors n i sectors b ≡ none
unfolding take_sectors
too_many zero i sectors b le gt = absurd (omega arith)
too_many (suc n) i sectors b le gt = elim (Bool-cases (ltb i num_direct)) [
  | inl lt ↦ rw lt (too_many n (i + 1) _ _ (omega tests) (omega arith))
  | inr ge ↦ rw ge
]

module _ (h : FileHeader) (free_map : BitMap) (size : ℕ) where
  -- What a successful `Allocate` returns: the header, and the bitmap with its sectors marked.
  pub record Allocation (h' : FileHeader) (free_map' : BitMap) : Type 0 where
    pub runs : allocate h free_map size ≡ some (h', free_map', true)
    pub sectors : h'.num_sectors ≡ sectors_for size
    pub bytes : h'.num_bytes ≡ size
    pub count : num_clear free_map ≡ num_clear free_map' + sectors_for size
    pub marks : (j : ℕ) → test_bit free_map j ≡ true → test_bit free_map' j ≡ true
    pub undone : GivesBack (sectors_for size) 0 h'.data_sectors free_map free_map' free_map'
    pub keeps_size : IsSized free_map'
    pub bits : free_map'.num_bits ≡ free_map.num_bits

  -- `Allocate` succeeds if the words of the bitmap hold its bits, the header has room for 30
  -- sectors, and the size needs neither more than that nor more than are free: it takes as many
  -- free sectors as the size needs, frees none, and giving them back clears exactly what it
  -- marked.
  pub allocate_succeeds :
      IsSized free_map
      → length h.data_sectors ≡ num_direct
      → sectors_for size ≤ num_direct
      → sectors_for size ≤ num_clear free_map
      → (h' : FileHeader) × (free_map' : BitMap) × Allocation h' free_map'
  unfolding allocate
  allocate_succeeds sized long fits enough =
      let n = sectors_for size in
      let h' : FileHeader = record h { num_bytes = size; num_sectors = n } in
      let (sectors, free_map', run, all) =
        take_sectors_lem n 0 h.data_sectors free_map sized enough (omega arith) (omega arith) in
      (
        record h' { data_sectors = sectors },
        free_map',
        record {
          runs = let room : ltb (num_clear free_map) n ≡ false = ground arith in rw (room, run);
          sectors = refl;
          bytes = refl;
          count = all.count;
          marks = all.marks;
          undone = all.undo free_map' all.sized all.bits (λ j now before. now);
          keeps_size = all.sized;
          bits = all.bits;
        },
      )

  -- `Allocate` refuses a file that needs more sectors than are free, and takes none.
  pub allocate_refuses :
      num_clear free_map < sectors_for size
      → (h' : FileHeader) × (allocate h free_map size ≡ some (h', free_map, false))
  unfolding allocate
  allocate_refuses few =
      (record h { num_bytes = size; num_sectors = sectors_for size }, ground arith)

  -- For a size that needs more than 30 sectors, and no more than are free, `Allocate` writes past
  -- the header's array.
  pub allocate_overflows :
      num_direct < sectors_for size
      → sectors_for size ≤ num_clear free_map
      → allocate h free_map size ≡ none
  unfolding allocate
  allocate_overflows large enough =
      let room : ltb (num_clear free_map) (sectors_for size) ≡ false = ground arith in
      rw (room, too_many (sectors_for size) 0 h.data_sectors free_map (omega arith) (omega arith))

was_enough :
    (h h' : FileHeader) (free_map free_map' : BitMap) (size : ℕ)
    → allocate h free_map size ≡ some (h', free_map', true)
    → sectors_for size ≤ num_clear free_map
was_enough h h' free_map free_map' size run =
    elim (Bool-cases (ltb (num_clear free_map) (sectors_for size))) [
      | inl few ↦
          let (h1, refused) = allocate_refuses h free_map size (omega tests) in
          absurd (ground (arith, run, refused))
      | inr enough ↦ ground (arith, enough)
    ]

-- What a `Deallocate` after an `Allocate` returns.
pub record Restored (b free_map : BitMap) : Type 0 where
  pub bits : (j : ℕ) → test_bit b j ≡ test_bit free_map j
  pub size : b.num_bits ≡ free_map.num_bits
  pub sized : IsSized b

-- A bitmap with the same bits has the same view.
pub Restored-view : (b free_map : BitMap) → Restored b free_map → view b ≡ view free_map
Restored-view b free_map r =
    ap (λ n. bits_from n 0 b) r.size ∙ same_bits free_map.num_bits 0 free_map b (λ j le. r.bits j)

module _ (h h' : FileHeader) (free_map free_map' : BitMap) (size : ℕ) (sized : IsSized free_map)
    (long : length h.data_sectors ≡ num_direct) (fits : sectors_for size ≤ num_direct)
    (run : allocate h free_map size ≡ some (h', free_map', true)) where
  -- `Deallocate` after a successful `Allocate` succeeds and restores every bit of the bitmap, if
  -- the words of the bitmap hold its bits, the header has room for 30 sectors, and the size needs
  -- no more.
  pub deallocate-allocate : (b : BitMap) × (deallocate h' free_map' ≡ some b) × Restored b free_map
  unfolding deallocate
  deallocate-allocate =
      let enough = was_enough h h' free_map free_map' size run in
      let (h1, map1, a) = allocate_succeeds h free_map size sized long fits enough in
      let same_header : h1 ≡ h' = ground (arith, run, a.runs) in
      let same_map : map1 ≡ free_map' = ground (arith, run, a.runs) in
      let (b, back, size', sized', all) = a.undone in
      let undo : deallocate h1 map1 ≡ some b = rw (a.sectors) back in
      let goal : deallocate h' free_map' ≡ some b =
        subst (λ h. deallocate h free_map' ≡ some b) same_header
          (subst (λ m. deallocate h1 m ≡ some b) same_map undo) in
      (
        b,
        goal,
        record {
          bits = λ j. ground (arith, all j, a.marks j);
          size = size' ∙ a.bits;
          sized = sized';
        },
      )

  -- A successful `Allocate` frees no sector and takes as many as the size needs.
  pub allocate-marks :
      ((j : ℕ) → test_bit free_map j ≡ true → test_bit free_map' j ≡ true)
      × IsSized free_map'
      × (num_clear free_map ≡ num_clear free_map' + sectors_for size)
  allocate-marks =
      let enough = was_enough h h' free_map free_map' size run in
      let (h1, map1, a) = allocate_succeeds h free_map size sized long fits enough in
      let same_map : map1 ≡ free_map' = ground (arith, run, a.runs) in
      subst
        (λ m.
          ((j : ℕ) → test_bit free_map j ≡ true → test_bit m j ≡ true)
          × IsSized m
          × (num_clear free_map ≡ num_clear m + sectors_for size))
        same_map (a.marks, a.keeps_size, a.count)
