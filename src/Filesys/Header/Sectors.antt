-- ===== src/Filesys/Header/Sectors.antt =====
-- Taking sectors and giving them back, bit by bit.
use cs350project.Prelude.{
  ℕ, zero, suc, ◌+◌, ◌≤◌, ◌<◌, ◌≡◌, refl, sym, ◌∙◌, ◌&&◌, ◌||◌, not, true, false, ℤ, pos, minus_one,
  some, List, length, set, get_or, get_or-set, length-set, arith,
}
use cs350project.Bitmap.{BitMap, mark_bit, clear_bit, test_bit, test, clear, num_clear}
use cs350project.Bitmap.Laws.{
  IsSized, mark_bit-IsSized, clear_bit-IsSized, test_bit-mark_bit, test_bit-clear_bit,
}
use cs350project.Bitmap.Search.{Taken, find_takes, mark_bit-num_bits, clear_bit-num_bits}
use cs350project.Filesys.Header.{num_direct, take_sectors, give_back, release_sector}

-- Giving sectors back clears the bits in which `b'` differs from `b`, in any bitmap that has them set.
abbrev pub GivesBack : (n i : ℕ) (sectors : List ℤ) (b b' m : BitMap) → Type 0
GivesBack n i sectors b b' m =
    (m' : BitMap) × (give_back n i sectors m ≡ some m')
    × (m'.num_bits ≡ m.num_bits)
    × IsSized m'
    × ((j : ℕ) → test_bit m' j ≡ (test_bit m j && (test_bit b j || not (test_bit b' j))))

-- The sectors that `take_sectors` takes: what it returns, and how the bitmap differs.
pub record TakenAll (n i : ℕ) (sectors sectors' : List ℤ) (b b' : BitMap) : Type 0 where
  pub keeps : (j : ℕ) → j < i → get_or sectors' j minus_one ≡ get_or sectors j minus_one
  pub bits : b'.num_bits ≡ b.num_bits
  pub marks : (j : ℕ) → test_bit b j ≡ true → test_bit b' j ≡ true
  pub count : num_clear b ≡ num_clear b' + n
  pub sized : IsSized b'
  pub undo :
      (m : BitMap)
      → IsSized m
      → m.num_bits ≡ b.num_bits
      → ((j : ℕ) → test_bit b' j ≡ true → test_bit b j ≡ false → test_bit m j ≡ true)
      → GivesBack n i sectors' b b' m
  pub room : length sectors' ≡ length sectors

-- The first sector goes back, then the others.
undo_first :
    (n i k : ℕ) (sectors : List ℤ) (b b' m : BitMap)
    → Taken b k
    → IsSized b
    → i < num_direct
    → get_or sectors i minus_one ≡ pos k
    → IsSized m
    → m.num_bits ≡ b.num_bits
    → test_bit m k ≡ true
    → test_bit b' k ≡ true
    → GivesBack n (i + 1) sectors (mark_bit b k) b' (clear_bit m k)
    → GivesBack (suc n) i sectors b b' m
unfolding give_back test clear
undo_first n i k sectors b b' m taken hb lt at hm size set set' (m', run, size', sized, bits) =
    let inside : k < m.num_bits = omega (arith, size, taken.inside) in
    let back : release_sector m (get_or sectors i minus_one) ≡ some (clear_bit m k) =
      rw at (ground (arith, set, inside)) in
    let run' : give_back (suc n) i sectors m ≡ some m' = rw back (ground (arith, run)) in
    (
      m',
      run',
      size' ∙ clear_bit-num_bits m k,
      sized,
      λ j. ground (
        arith,
        bits j,
        set,
        set',
        taken.was_clear,
        test_bit-clear_bit m k j hm inside,
        test_bit-mark_bit b k j hb taken.inside,
      ),
    )

pub take_sectors_lem :
    (n i : ℕ) (sectors : List ℤ) (b : BitMap)
    → IsSized b
    → n ≤ num_clear b
    → i + n ≤ num_direct
    → num_direct ≤ length sectors
    → (sectors' : List ℤ) × (b' : BitMap) × (take_sectors n i sectors b ≡ some (sectors', b'))
      × TakenAll n i sectors sectors' b b'
unfolding take_sectors give_back
take_sectors_lem zero i sectors b h le fits long = (
  sectors,
  b,
  refl,
  record {
    keeps = λ j lt. refl;
    bits = refl;
    marks = λ j marked. marked;
    count = omega arith;
    sized = h;
    undo = λ m hm size agree. (m, refl, refl, hm, λ j. ground arith);
    room = refl;
  },
)
take_sectors_lem (suc n) i sectors b h le fits long =
    let (k, taken) = find_takes b h (omega arith) in
    let (sectors', b', run, all) =
      take_sectors_lem n (i + 1) (set sectors i (pos k)) (mark_bit b k) (mark_bit-IsSized b k h)
        (omega (arith, taken.one_fewer)) (omega arith)
        (omega (arith, length-set sectors i (pos k))) in
    let marked = λ (j : ℕ). test_bit-mark_bit b k j h taken.inside in
    let here : get_or sectors' i minus_one ≡ pos k =
      all.keeps i (omega arith)
      ∙ ground (arith, get_or-set sectors i i (pos k) minus_one (omega arith)) in
    let run' : take_sectors (suc n) i sectors b ≡ some (sectors', b') =
      rw taken.result (ground (arith, run)) in
    (
      sectors',
      b',
      run',
      record {
        keeps = λ j lt.
            all.keeps j (omega arith)
            ∙ ground (arith, get_or-set sectors i j (pos k) minus_one (omega arith));
        bits = all.bits ∙ mark_bit-num_bits b k;
        marks = λ j set. all.marks j (ground (arith, marked j));
        count = omega (arith, all.count, taken.one_fewer);
        sized = all.sized;
        undo = λ m hm size agree.
            let set' = all.marks k (ground (arith, marked k)) in
            let set = agree k set' taken.was_clear in
            undo_first n i k sectors' b b' m taken h (omega arith) here hm size set set' (
              all.undo (clear_bit m k) (clear_bit-IsSized m k hm)
                (clear_bit-num_bits m k ∙ (size ∙ sym (mark_bit-num_bits b k)))
                λ j t f. ground (
                  arith,
                  marked j,
                  agree j t,
                  test_bit-clear_bit m k j hm (omega (arith, size, taken.inside)),
                ));
        room = all.room ∙ length-set sectors i (pos k);
      },
    )
