-- ===== src/Bitmap/Access.antt =====
-- `Mark`, `Clear` and `Test` behind their assertions: which bits a successful call changes.
use cs350project.Prelude.{
  ◌≡◌, true, false, ℤ, pos, negsuc, eqb_ℤ, ltb, if◌then◌else◌, some, arith, tests, Bool-cases, inl,
  inr, refl,
}
use cs350project.Bitmap.{BitMap, mark_bit, clear_bit, test, mark, clear}
use cs350project.Bitmap.Laws.{IsSized, test_bit-mark_bit, test_bit-clear_bit}
use cs350project.Bitmap.Search.{mark_bit-num_bits, clear_bit-num_bits}

-- After a `Mark` that passes its assertion, `Test` answers true for the marked bit and as before for
-- every other argument, those outside of the bitmap included, if the words hold all bits.
pub test-mark :
    (b b' : BitMap) (which other : ℤ)
    → IsSized b
    → mark b which ≡ some b'
    → test b' other ≡ (if eqb_ℤ which other then some true else test b other)
unfolding mark test
test-mark b b' (pos i) (pos j) h e = elim (Bool-cases (ltb i b.num_bits)) [
  | inl lt ↦
      let same : b' ≡ mark_bit b i = ground (arith, e) in
      let bits = test_bit-mark_bit b i j h (omega tests) in
      rw same (ground (arith, mark_bit-num_bits b i, bits))
  | inr ge ↦ absurd (ground (arith, e))
]
test-mark b b' (pos i) (negsuc j) h e = refl
test-mark b b' (negsuc i) other h e = absurd (cc)

-- After a `Clear` that passes its assertion, `Test` answers false for the cleared bit and as before
-- for every other argument, those outside of the bitmap included, if the words hold all bits.
pub test-clear :
    (b b' : BitMap) (which other : ℤ)
    → IsSized b
    → clear b which ≡ some b'
    → test b' other ≡ (if eqb_ℤ which other then some false else test b other)
unfolding clear test
test-clear b b' (pos i) (pos j) h e = elim (Bool-cases (ltb i b.num_bits)) [
  | inl lt ↦
      let same : b' ≡ clear_bit b i = ground (arith, e) in
      let bits = test_bit-clear_bit b i j h (omega tests) in
      rw same (ground (arith, clear_bit-num_bits b i, bits))
  | inr ge ↦ absurd (ground (arith, e))
]
test-clear b b' (pos i) (negsuc j) h e = refl
test-clear b b' (negsuc i) other h e = absurd (cc)
