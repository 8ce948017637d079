-- ===== src/Bitmap/Tests.antt =====
-- The bitmap's theorems at concrete bitmaps.
use cs350project.Prelude.{◌≡◌, refl, pos, some, [], ◌∷◌, arith}
use cs350project.Bitmap.{
  BitMap, mark_bit, clear_bit, find, mark, clear, div_round_up, find_from, test_bit,
}
use cs350project.Bitmap.Laws.{IsSized}
use cs350project.Bitmap.Search.{Allocated, find_allocates}

-- Bits 0 and 2 of three are set.
abbrev five : BitMap
five = record { num_bits = 3; num_words = 1; map = 5 ∷ [] }

abbrev seven : BitMap
seven = record { num_bits = 3; num_words = 1; map = 7 ∷ [] }

sized : IsSized five
sized = record { room = omega arith }

found : find five ≡ (seven, pos 1)
unfolding find find_from test_bit mark_bit
found = refl

find_allocates_example : Allocated five seven 1
find_allocates_example = find_allocates five seven 1 sized found

two_words : 2 ≡ div_round_up 40 32
unfolding div_round_up
two_words = refl

marked : mark five (pos 1) ≡ some seven
unfolding mark mark_bit
marked = refl

cleared : clear five (pos 0) ≡ some (record five { map = 4 ∷ [] })
unfolding clear clear_bit
cleared = refl
