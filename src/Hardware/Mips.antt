-- ===== src/Hardware/Mips.antt =====
-- machine/mipssim.cc: the multiplication of the MIPS simulator. A register is its 32 bits, from 0 to
-- 2 ^ 32 - 1, whether an instruction takes them as signed or not.
pub mod Product
pub mod Decode
pub mod Step
pub mod Keeps
pub mod Operations
pub mod Finish
pub mod Flow
use cs350project.Prelude.{
  ℕ, zero, suc, ◌+◌, ◌-◌, ◌*◌, ◌/◌, ◌%◌, ◌^◌, ltb, leb, ◌==◌, ◌&&◌, ◌||◌, Bool, true, false,
  if◌then◌else◌,
}

-- The sign bit of a register.
abbrev pub is_negative : ℕ → Bool
is_negative a = leb (2 ^ 31) a

-- -a
abbrev pub negate : ℕ → ℕ
negate a = (2 ^ 32 - a) % 2 ^ 32

-- A register shifted to the right by one bit as an int, which keeps the sign.
abbrev pub half : ℕ → ℕ
half a = a / 2 + (if is_negative a then 2 ^ 31 else 0)

-- The pair that the source keeps in hi and lo, or in bHi and bLo.
pub record DoubleWord : Type 0 where
  pub hi : ℕ
  pub lo : ℕ

-- bHi and bLo are shifted to the left by one bit.
abbrev pub doubled : DoubleWord → DoubleWord
doubled b = record {
  hi = b.hi * 2 % 2 ^ 32 + (if is_negative b.lo then 1 else 0);
  lo = b.lo * 2 % 2 ^ 32;
}

-- lo and hi with bLo and bHi added, the carry out of the low bits first.
abbrev pub add_double : DoubleWord → DoubleWord → DoubleWord
add_double r b =
    let low = (r.lo + b.lo) % 2 ^ 32 in
    record { hi = ((if ltb low b.lo then (r.hi + 1) % 2 ^ 32 else r.hi) + b.hi) % 2 ^ 32; lo = low }

-- The loop of `Mult` with `n` of its rounds left.
unfoldable pub mult_loop : ℕ → ℕ → DoubleWord → DoubleWord → DoubleWord
mult_loop zero a b r = r
mult_loop (suc n) a b r =
    let r' = if a % 2 == 1 then add_double r b else r in
    let rest = mult_loop n (half a) (doubled b) r' in if a % 2 == 1 && a / 2 == 0 then r' else rest

-- The two's complement of a double word.
abbrev pub complemented : DoubleWord → DoubleWord
complemented r =
    let low = (2 ^ 32 - 1 - r.lo + 1) % 2 ^ 32 in
    record {
      hi = if low == 0 then (2 ^ 32 - 1 - r.hi + 1) % 2 ^ 32 else 2 ^ 32 - 1 - r.hi;
      lo = low;
    }

abbrev pub magnitude : Bool → ℕ → ℕ
magnitude signed_arith a = if signed_arith && is_negative a then negate a else a

abbrev pub is_flipped : Bool → ℕ → ℕ → Bool
is_flipped signed_arith a b =
    signed_arith && (if is_negative a then ltb b (2 ^ 31) else is_negative b)

-- `Mult`
unfoldable pub mult : ℕ → ℕ → Bool → DoubleWord
mult a b signed_arith =
    let r =
      mult_loop 32 (magnitude signed_arith a) (record { hi = 0; lo = magnitude signed_arith b })
        (record { hi = 0; lo = 0 }) in
    if a == 0 || b == 0
    then record { hi = 0; lo = 0 }
    else if is_flipped signed_arith a b
    then complemented r
    else r
