-- ===== src/Bitmap/Bits.antt =====
-- Single bits of a word, and the bit operations of userprog/bitmap.cc bit by bit.
use Prim.Native.Nat.{digits, bit_and, bit_or, bit_and-bitwise, bit_or-bitwise}
use native.Mathlib.Nat.{pow-suc}
use cs350project.Prelude.{
  ℕ, zero, suc, ◌+◌, ◌-◌, ◌*◌, ◌/◌, ◌%◌, ◌^◌, ◌≤◌, ◌<◌, min, max, ◌≡◌, refl, ◌==◌, if◌then◌else◌,
  arith, ◌∙◌,
}

-- Bit `k` of `w`.
abbrev pub bit : ℕ → ℕ → ℕ
bit zero w = w % 2
bit (suc k) w = bit k (w / 2)

-- The fuel of the digit recursion does not matter, as long as it is enough.
module _ (stop : ℕ → ℕ) (digit : ℕ → ℕ → ℕ) where
  enough_fuel : (a b j k : ℕ) → a ≤ j → a ≤ k → digits stop digit j a b ≡ digits stop digit k a b
  enough_fuel zero b zero zero hj hk = refl
  enough_fuel zero b zero (suc k) hj hk = refl
  enough_fuel zero b (suc j) zero hj hk = refl
  enough_fuel zero b (suc j) (suc k) hj hk = refl
  enough_fuel (suc a) b zero k hj hk = absurd (omega arith)
  enough_fuel (suc a) b (suc j) zero hj hk = absurd (omega arith)
  enough_fuel (suc a) b (suc j) (suc k) hj hk =
      let half = enough_fuel (suc a / 2) (b / 2) j k (omega arith) (omega arith) in
      omega (arith, half)

  halve :
      (a b : ℕ)
      → digits stop digit (suc a) (suc a) b
        ≡ digits stop digit (suc a / 2) (suc a / 2) (b / 2) * 2 + digit (suc a % 2) (b % 2)
  halve a b =
      omega (arith, enough_fuel (suc a / 2) (b / 2) a (suc a / 2) (omega arith) (omega arith))

and_halves : (a b : ℕ) → bit_and a b ≡ bit_and (a / 2) (b / 2) * 2 + min (a % 2) (b % 2)
and_halves zero b = simp bit_and-bitwise (omega arith)
and_halves (suc a) b = simp bit_and-bitwise (halve (λ n. 0) min a b)

or_halves : (a b : ℕ) → bit_or a b ≡ bit_or (a / 2) (b / 2) * 2 + max (a % 2) (b % 2)
or_halves zero b = simp bit_or-bitwise (omega arith)
or_halves (suc a) b = simp bit_or-bitwise (halve (λ n. n) max a b)

pub bit-lt : (k w : ℕ) → bit k w < 2
bit-lt zero w = omega arith
bit-lt (suc k) w = bit-lt k (w / 2)

-- Doubling shifts the bits up by one place.
bit-double : (k h r w : ℕ) → r < 2 → w ≡ h * 2 + r → bit (suc k) w ≡ bit k h
bit-double k h r w small e = let half : w / 2 ≡ h = omega arith in rw half

pub bit-bit_or : (k a b : ℕ) → bit k (bit_or a b) ≡ max (bit k a) (bit k b)
bit-bit_or zero a b = omega (arith, or_halves a b)
bit-bit_or (suc k) a b =
    bit-double k (bit_or (a / 2) (b / 2)) (max (a % 2) (b % 2)) _ (omega arith) (or_halves a b)
    ∙ bit-bit_or k (a / 2) (b / 2)

pub bit-bit_and : (k a b : ℕ) → bit k (bit_and a b) ≡ min (bit k a) (bit k b)
bit-bit_and zero a b = omega (arith, and_halves a b)
bit-bit_and (suc k) a b =
    bit-double k (bit_and (a / 2) (b / 2)) (min (a % 2) (b % 2)) _ (omega arith) (and_halves a b)
    ∙ bit-bit_and k (a / 2) (b / 2)

pub bit-zero : (k : ℕ) → bit k 0 ≡ 0
bit-zero zero = refl
bit-zero (suc k) = bit-zero k

pub bit-pow : (j k : ℕ) → bit j (2 ^ k) ≡ (if j == k then 1 else 0)
bit-pow zero zero = refl
bit-pow zero (suc k) = rw (pow-suc 2 k) (ground arith)
bit-pow (suc j) zero = ground (arith, bit-zero j)
bit-pow (suc j) (suc k) =
    bit-double j (2 ^ k) 0 (2 ^ suc k) (omega arith) (rw (pow-suc 2 k) (omega arith))
    ∙ (bit-pow j k ∙ ground arith)

pow-pos : (n : ℕ) → 0 < 2 ^ n
pow-pos zero = omega arith
pow-pos (suc n) = rw (pow-suc 2 n) (omega (arith, pow-pos n))

-- The complement on `n` bits turns each of them round.
pub bit-complement : (j n x : ℕ) → j < n → x < 2 ^ n → bit j (2 ^ n - 1 - x) + bit j x ≡ 1
bit-complement zero (suc n) x lt small =
    let e : 2 ^ suc n ≡ 2 ^ n * 2 = pow-suc 2 n in omega (arith, pow-pos n)
bit-complement (suc j) (suc n) x lt small =
    let e : 2 ^ suc n ≡ 2 ^ n * 2 = pow-suc 2 n in
    let half : (2 ^ suc n - 1 - x) / 2 ≡ 2 ^ n - 1 - x / 2 = omega (arith, pow-pos n) in
    rw half (bit-complement j n (x / 2) (omega arith) (omega arith))
bit-complement zero zero x lt small = absurd (omega arith)
bit-complement (suc j) zero x lt small = absurd (omega arith)

and_zero : (fuel a : ℕ) → a ≤ fuel → bit_and a 0 ≡ 0
and_zero zero zero h = refl
and_zero zero (suc a) h = absurd (omega arith)
and_zero (suc fuel) zero h = refl
and_zero (suc fuel) (suc a) h =
    omega (arith, and_halves (suc a) 0, and_zero fuel (suc a / 2) (omega arith))

-- Masking by one bit leaves that bit in its place.
pub bit_and-pow : (w k : ℕ) → bit_and w (2 ^ k) ≡ bit k w * 2 ^ k
bit_and-pow w zero = omega (arith, and_halves w 1, and_zero (w / 2) (w / 2) (omega arith))
bit_and-pow w (suc k) =
    let double : 2 ^ suc k ≡ 2 ^ k * 2 = pow-suc 2 k in
    let half : 2 ^ suc k / 2 ≡ 2 ^ k = omega arith in
    let rest : bit_and (w / 2) (2 ^ suc k / 2) ≡ bit k (w / 2) * 2 ^ k =
      rw half (bit_and-pow (w / 2) k) in
    rw double (omega (arith, and_halves w (2 ^ k * 2), rw double at rest))

zero_test : (b p : ℕ) → b < 2 → 0 < p → (b * p == 0) ≡ (b == 0)
zero_test zero p h q = ground arith
zero_test (suc zero) p h q = ground arith
zero_test (suc (suc b)) p h q = absurd (omega arith)

-- The mask meets a word exactly in the bit that it stands for.
pub bit_and-pow_eq_zero : (w k : ℕ) → (bit_and w (2 ^ k) == 0) ≡ (bit k w == 0)
bit_and-pow_eq_zero w k =
    rw (bit_and-pow w k) (zero_test (bit k w) (2 ^ k) (bit-lt k w) (pow-pos k))
