-- ===== src/Bitmap.antt =====
-- userprog/bitmap.cc: bits packed into words of 32.
pub mod Bits
pub mod Laws
pub mod Search
pub mod View
pub mod Access
pub mod Fresh
mod Tests
use Prim.Native.Nat.{bit_and, bit_or}
use cs350project.Prelude.{
  ℕ, zero, suc, ◌+◌, ◌-◌, ◌/◌, ◌%◌, ◌^◌, ltb, ◌==◌, if◌then◌else◌, Bool, true, false, not, ℤ, pos,
  negsuc, minus_one, Option, none, some, List, set, get_or,
}

abbrev pub bits_in_word : ℕ
bits_in_word = 32

-- `divRoundUp` of threads/utility.h
unfoldable pub div_round_up : ℕ → ℕ → ℕ
div_round_up n s = n / s + (if ltb 0 (n % s) then 1 else 0)

pub record BitMap : Type 0 where
  pub num_bits : ℕ
  pub num_words : ℕ
  pub map : List ℕ

abbrev pub word : BitMap → ℕ → ℕ
word b i = get_or b.map (i / bits_in_word) 0

-- `~x` on 32 bits
abbrev pub complement : ℕ → ℕ
complement x = 2 ^ 32 - 1 - x

-- The bodies of `Mark`, `Clear` and `Test`, behind their assertion.
unfoldable pub mark_bit : BitMap → ℕ → BitMap
mark_bit b i = record b {
  map = set b.map (i / bits_in_word) (bit_or (word b i) (2 ^ (i % bits_in_word)));
}

unfoldable pub clear_bit : BitMap → ℕ → BitMap
clear_bit b i = record b {
  map = set b.map (i / bits_in_word) (bit_and (word b i) (complement (2 ^ (i % bits_in_word))));
}

unfoldable pub test_bit : BitMap → ℕ → Bool
test_bit b i = not (bit_and (word b i) (2 ^ (i % bits_in_word)) == 0)

-- `none` is a failed ASSERT.
abbrev pub asserted {ℓ} : {A : Type ℓ} → BitMap → ℤ → (ℕ → A) → Option A
asserted b (negsuc i) f = none
asserted b (pos i) f = if ltb i b.num_bits then some (f i) else none

unfoldable pub mark : BitMap → ℤ → Option BitMap
mark b which = asserted b which (mark_bit b)

unfoldable pub clear : BitMap → ℤ → Option BitMap
clear b which = asserted b which (clear_bit b)

unfoldable pub test : BitMap → ℤ → Option Bool
test b which = asserted b which (test_bit b)

-- for (i = i; i < i + n; i++) Clear(i);
unfoldable pub clear_from : ℕ → ℕ → BitMap → BitMap
clear_from zero i b = b
clear_from (suc n) i b = clear_from n (i + 1) (clear_bit b i)

-- `BitMap::BitMap`, over words of fresh memory
unfoldable pub new_bitmap : List ℕ → ℕ → BitMap
new_bitmap fresh n =
    clear_from n 0 (record { num_bits = n; num_words = div_round_up n bits_in_word; map = fresh })

unfoldable pub find_from : ℕ → ℕ → BitMap → BitMap × ℤ
find_from zero i b = (b, minus_one)
find_from (suc n) i b =
    let rest = find_from n (i + 1) b in if test_bit b i then rest else (mark_bit b i, pos i)

-- `BitMap::Find`
unfoldable pub find : BitMap → BitMap × ℤ
find b = find_from b.num_bits 0 b

unfoldable pub count_clear : ℕ → ℕ → ℕ → BitMap → ℕ
count_clear zero i count b = count
count_clear (suc n) i count b = count_clear n (i + 1) (if test_bit b i then count else count + 1) b

-- `BitMap::NumClear`
unfoldable pub num_clear : BitMap → ℕ
num_clear b = count_clear b.num_bits 0 0 b
