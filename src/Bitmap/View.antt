-- ===== src/Bitmap/View.antt =====
-- A bitmap as the list of its bits, and `Mark`, `Clear`, `Find` and `NumClear` on that list.
use cs350project.Prelude.{
  ℕ, zero, suc, ◌+◌, ◌≤◌, ◌<◌, ◌≡◌, refl, ◌==◌, if◌then◌else◌, Bool, true, false, ℤ, pos, minus_one,
  Option, none, some, List, [], ◌∷◌, set, arith,
}
use cs350project.Bitmap.{
  BitMap, mark_bit, clear_bit, test_bit, find_from, find, count_clear, num_clear,
}
use cs350project.Bitmap.Laws.{IsSized, test_bit-mark_bit, test_bit-clear_bit}

-- The `n` bits from bit `i` on.
abbrev pub bits_from : ℕ → ℕ → BitMap → List Bool
bits_from zero i b = []
bits_from (suc n) i b = test_bit b i ∷ bits_from n (i + 1) b

abbrev pub view : BitMap → List Bool
view b = bits_from b.num_bits 0 b

-- The place of the first clear bit, counted from `i`.
abbrev pub first_clear : ℕ → List Bool → Option ℕ
first_clear i [] = none
first_clear i (false ∷ bs) = some i
first_clear i (true ∷ bs) = first_clear (i + 1) bs

abbrev pub clear_bits : List Bool → ℕ
clear_bits [] = 0
clear_bits (true ∷ bs) = clear_bits bs
clear_bits (false ∷ bs) = clear_bits bs + 1

pub same_bits :
    (n i : ℕ) (b b' : BitMap)
    → ((j : ℕ) → i ≤ j → test_bit b' j ≡ test_bit b j)
    → bits_from n i b' ≡ bits_from n i b
same_bits zero i b b' h = refl
same_bits (suc n) i b b' h =
    rw (h i (omega arith), same_bits n (i + 1) b b' λ j le. h j (omega arith))

-- Bits that change in one place only.
set_at :
    (n i k : ℕ) (x : Bool) (b b' : BitMap)
    → ((j : ℕ) → i ≤ j → test_bit b' j ≡ (if i + k == j then x else test_bit b j))
    → bits_from n i b' ≡ set (bits_from n i b) k x
set_at zero i k x b b' h = refl
set_at (suc n) i zero x b b' h =
    let here : test_bit b' i ≡ x = ground (arith, h i (omega arith)) in
    let rest = same_bits n (i + 1) b b' λ j le. ground (arith, h j (omega arith)) in rw (here, rest)
set_at (suc n) i (suc k) x b b' h =
    let here : test_bit b' i ≡ test_bit b i = ground (arith, h i (omega arith)) in
    let rest = set_at n (i + 1) k x b b' λ j le. ground (arith, h j (omega arith)) in
    rw (here, rest)

module _ (b : BitMap) (i : ℕ) (h : IsSized b) (lt : i < b.num_bits) where
  -- `Mark` sets its bit in the list of bits.
  pub view-mark_bit : view (mark_bit b i) ≡ set (view b) i true
  unfolding mark_bit
  view-mark_bit =
      set_at b.num_bits 0 i true b (mark_bit b i)
        λ j le. ground (arith, test_bit-mark_bit b i j h lt)

  -- `Clear` resets its bit in the list of bits.
  pub view-clear_bit : view (clear_bit b i) ≡ set (view b) i false
  unfolding clear_bit
  view-clear_bit =
      set_at b.num_bits 0 i false b (clear_bit b i)
        λ j le. ground (arith, test_bit-clear_bit b i j h lt)

-- What `Find` returns, given the first clear bit.
abbrev pub taken : BitMap → Option ℕ → BitMap × ℤ
taken b none = (b, minus_one)
taken b (some i) = (mark_bit b i, pos i)

find_from_lem : (n i : ℕ) (b : BitMap) → find_from n i b ≡ taken b (first_clear i (bits_from n i b))
unfolding find_from
find_from_lem zero i b = refl
find_from_lem (suc n) i b = ground (arith, find_from_lem n (i + 1) b)

-- `Find` marks and returns the first clear bit of the list of bits, and changes nothing and returns -1
-- when there is none.
pub find_refines : (b : BitMap) → find b ≡ taken b (first_clear 0 (view b))
unfolding find
find_refines b = find_from_lem b.num_bits 0 b

count_clear_lem : (n i c : ℕ) (b : BitMap) → count_clear n i c b ≡ c + clear_bits (bits_from n i b)
unfolding count_clear
count_clear_lem zero i c b = omega arith
count_clear_lem (suc n) i c b =
    ground (arith, count_clear_lem n (i + 1) c b, count_clear_lem n (i + 1) (c + 1) b)

pub num_clear_lem : (b : BitMap) → num_clear b ≡ clear_bits (view b)
unfolding num_clear
num_clear_lem b = omega (arith, count_clear_lem b.num_bits 0 0 b)
