-- ===== src/Bitmap/Laws.antt =====
-- `Mark`, `Clear` and `Test` on single bits.
use cs350project.Prelude.{
  ℕ, zero, suc, ◌*◌, ◌/◌, ◌%◌, ◌^◌, ◌≤◌, ◌<◌, ◌≡◌, ◌==◌, if◌then◌else◌, Bool, true, false, not,
  length, length-set, set, get_or, get_or-set, ap, arith,
}
use Prim.Native.Nat.{bit_and, bit_or}
use native.Mathlib.Nat.{pow-suc}
use cs350project.Bitmap.{BitMap, word, complement, mark_bit, clear_bit, test_bit}
use cs350project.Bitmap.Bits.{
  bit, bit-lt, bit-bit_or, bit-bit_and, bit-pow, bit-complement, bit_and-pow_eq_zero,
}

-- The words hold all bits.
pub record IsSized (b : BitMap) : Type 0 where
  pub room : b.num_bits ≤ length b.map * 32

pub mark_bit-IsSized : (b : BitMap) (i : ℕ) → IsSized b → IsSized (mark_bit b i)
unfolding mark_bit
mark_bit-IsSized b i h = record { room = rw (length-set b.map _ _) h.room }

pub clear_bit-IsSized : (b : BitMap) (i : ℕ) → IsSized b → IsSized (clear_bit b i)
unfolding clear_bit
clear_bit-IsSized b i h = record { room = rw (length-set b.map _ _) h.room }

-- A test reads one bit of one word.
test_bit-bit : (b : BitMap) (i : ℕ) → test_bit b i ≡ not (bit (i % 32) (word b i) == 0)
unfolding test_bit
test_bit-bit b i = rw (bit_and-pow_eq_zero (word b i) (i % 32))

-- The word that holds bit `j` after the word of bit `i` was replaced by `v`.
word-set :
    (b : BitMap) (i j v : ℕ)
    → i < b.num_bits
    → IsSized b
    → word (record b { map = set b.map (i / 32) v }) j ≡ (if i / 32 == j / 32 then v else word b j)
word-set b i j v lt h = get_or-set b.map (i / 32) (j / 32) v 0 (let r = h.room in omega arith)

pow-pos : (n : ℕ) → 0 < 2 ^ n
pow-pos zero = omega arith
pow-pos (suc n) = rw (pow-suc 2 n) (omega (arith, pow-pos n))

pow-lt : (k n : ℕ) → k < n → 2 ^ k < 2 ^ n
pow-lt zero zero h = absurd (omega arith)
pow-lt zero (suc n) h = rw (pow-suc 2 n) (omega (arith, pow-pos n))
pow-lt (suc k) zero h = absurd (omega arith)
pow-lt (suc k) (suc n) h = rw (pow-suc 2 n, pow-suc 2 k) (omega (arith, pow-lt k n (omega arith)))

-- One bit of a word after another was set in it, and after another was cleared.
bit-set :
    (a k j : ℕ)
    → not (bit j (bit_or a (2 ^ k)) == 0) ≡ (if k == j then true else not (bit j a == 0))
bit-set a k j = rw (bit-bit_or j a (2 ^ k), bit-pow j k) (ground (arith, bit-lt j a))

bit-unset :
    (a k j : ℕ)
    → k < 32
    → j < 32
    → not (bit j (bit_and a (complement (2 ^ k))) == 0)
      ≡ (if k == j then false else not (bit j a == 0))
bit-unset a k j hk hj =
    let turned = bit-complement j 32 (2 ^ k) hj (pow-lt k 32 hk) in
    let one = bit-pow j k in
    rw (bit-bit_and j a (complement (2 ^ k))) (ground (arith, bit-lt j a, turned, one))

-- Two bits are the same if they lie in the same word at the same place.
same_place : (i j : ℕ) → (i == j) ≡ (if i / 32 == j / 32 then i % 32 == j % 32 else false)
same_place i j = ground arith

module _ (b : BitMap) (i j : ℕ) (h : IsSized b) (lt : i < b.num_bits) where
  -- A change of the word of bit `i`, seen from bit `j`.
  test_bit-set :
      (v : ℕ) (x : Bool)
      → (i / 32 ≡ j / 32
          → not (bit (j % 32) v == 0) ≡ (if i % 32 == j % 32 then x else test_bit b j))
      → test_bit (record b { map = set b.map (i / 32) v }) j ≡ (if i == j then x else test_bit b j)
  test_bit-set v x change =
      rw
        (
          test_bit-bit (record b { map = set b.map (i / 32) v }) j,
          word-set b i j v lt h,
          same_place i j,
        )
        (ground (arith, test_bit-bit b j))

  -- Marking a bit sets that bit, and no other.
  pub test_bit-mark_bit : test_bit (mark_bit b i) j ≡ (if i == j then true else test_bit b j)
  unfolding mark_bit
  test_bit-mark_bit = test_bit-set _ true λ same.
      rw (test_bit-bit b j, bit-set (word b i) (i % 32) (j % 32))
        (ap (λ n. if i % 32 == j % 32 then true else not (bit (j % 32) (get_or b.map n 0) == 0))
          same)

  -- Clearing a bit resets that bit, and no other.
  pub test_bit-clear_bit : test_bit (clear_bit b i) j ≡ (if i == j then false else test_bit b j)
  unfolding clear_bit
  test_bit-clear_bit = test_bit-set _ false λ same.
      rw (test_bit-bit b j, bit-unset (word b i) (i % 32) (j % 32) (omega arith) (omega arith))
        (ap (λ n. if i % 32 == j % 32 then false else not (bit (j % 32) (get_or b.map n 0) == 0))
          same)
