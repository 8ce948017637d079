-- ===== src/Hardware/Mips/Product.antt =====
-- Mult of machine/mipssim.cc computes the product.
use cs350project.Prelude.{
  ℕ, zero, suc, ◌+◌, ◌-◌, ◌*◌, ◌/◌, ◌%◌, ◌^◌, ◌<◌, ◌≤◌, ◌≡◌, refl, sym, ◌∙◌, ap, arith, ◌==◌, ◌&&◌,
  ◌||◌, Bool, true, false, if◌then◌else◌, Bool-cases, ◌⊎◌, inl, inr,
}
use cs350project.Hardware.Mips.{
  is_negative, half, DoubleWord, doubled, add_double, mult_loop, complemented, magnitude,
  is_flipped, mult,
}

abbrev pub value : DoubleWord → ℕ
value d = d.hi * 2 ^ 32 + d.lo

abbrev IsDouble : DoubleWord → Type 0
IsDouble d = (d.hi < 2 ^ 32) × (d.lo < 2 ^ 32)

-- Equal up to multiples of 2 ^ 64.
abbrev Cong : ℕ → ℕ → Type 0
Cong x y = (k l : ℕ) × (x + k * 2 ^ 64 ≡ y + l * 2 ^ 64)

-- The bits of a multiplier that `n` rounds see.
unfoldable seen : ℕ → ℕ → ℕ
seen zero a = 0
seen (suc n) a = a % 2 + 2 * seen n (half a)

power-suc : (n : ℕ) → 2 ^ suc n ≡ 2 * 2 ^ n
power-suc n = ground arith

power_bound : (n m : ℕ) → n ≤ m → 2 ^ n ≤ 2 ^ m
power_bound zero zero le = omega arith
power_bound zero (suc m) le =
    let ih = power_bound zero m (omega arith) in let b = power-suc m in omega arith
power_bound (suc n) (suc m) le =
    let ih = power_bound n m (omega arith) in
    let a = power-suc n in let b = power-suc m in omega arith
power_bound (suc n) zero le = ground arith

seen-suc : (n a : ℕ) → seen (suc n) a ≡ a % 2 + 2 * seen n (half a)
unfolding seen
seen-suc n a = refl

seen-zero : (a : ℕ) → seen 0 a ≡ 0
unfolding seen
seen-zero a = refl

-- With no sign, all bits are seen that there are rounds for.
seen-small : (n a : ℕ) → a < 2 ^ n → n ≤ 31 → seen n a ≡ a
unfolding seen
seen-small zero a lt le = omega arith
seen-small (suc n) a lt le =
    let p = power-suc n in
    let b = power_bound (suc n) 31 le in
    let ih = seen-small n (a / 2) (omega arith) (omega arith) in
    let same : half a ≡ a / 2 = ground arith in rw same (omega arith)

-- With a sign, the shifts bring ones in, which are not seen.
seen-signed :
    (n a : ℕ) → 2 ^ 32 ≤ a + 2 ^ n → a < 2 ^ 32 → n ≤ 31 → seen (suc n) a + 2 ^ 32 ≡ a + 2 ^ suc n
seen-signed zero a ge lt le = let s = seen-suc zero a in let z = seen-zero (half a) in omega arith
seen-signed (suc n) a ge lt le =
    let p = power-suc n in
    let q = power-suc (suc n) in
    let b = power_bound n 30 (omega arith) in
    let s = seen-suc (suc n) a in
    let same : half a ≡ a / 2 + 2 ^ 31 = ground arith in
    let ih = seen-signed n (a / 2 + 2 ^ 31) (omega arith) (omega arith) (omega arith) in
    let s' = s ∙ ap (λ h. a % 2 + 2 * seen (suc n) h) same in omega arith

seen_all : (a : ℕ) → a < 2 ^ 32 → seen 32 a ≡ a
seen_all a lt = elim (Bool-cases (is_negative a)) [
  | inl minus ↦ let all = seen-signed 31 a (ground (arith, minus)) lt (omega arith) in omega arith
  | inr plus ↦
      let small : a < 2 ^ 31 = ground (arith, plus) in
      let s = seen-suc 31 a in
      let same : half a ≡ a / 2 = ground (arith, plus) in
      let ih = seen-small 31 (a / 2) (omega arith) (omega arith) in
      let s' = s ∙ ap (λ h. a % 2 + 2 * seen 31 h) same in omega arith
]

doubled-value :
    (b : DoubleWord) → IsDouble b → IsDouble (doubled b) × Cong (value (doubled b)) (2 * value b)
doubled-value b h = (ground arith, (b.hi / 2 ^ 31, 0, ground arith))

add_double-value :
    (r b : DoubleWord)
    → IsDouble r
    → IsDouble b
    → IsDouble (add_double r b) × Cong (value (add_double r b)) (value r + value b)
add_double-value r b hr hb = (ground arith, ((value r + value b) / 2 ^ 64, 0, ground arith))

complemented-value :
    (r : DoubleWord)
    → IsDouble r
    → IsDouble (complemented r) × Cong (value (complemented r) + value r) 0
complemented-value r h = (ground arith, (0, (if value r == 0 then 0 else 1), ground arith))

combined :
    (v r r' b b' o x : ℕ)
    → Cong v (r' + x * b')
    → Cong r' (r + o * b)
    → Cong b' (2 * b)
    → Cong v (r + (o + 2 * x) * b)
combined v r r' b b' o x (k1, l1, e1) (k2, l2, e2) (k3, l3, e3) =
    let e : x * (b' + k3 * 2 ^ 64) ≡ x * (2 * b + l3 * 2 ^ 64) = ap (λ y. x * y) e3 in
    (k1 + k2 + x * k3, l1 + l2 + x * l3, omega arith)

seen-one : (n a : ℕ) → n ≤ 31 → a ≡ 0 → seen n a ≡ 0
seen-one n a le z = let p = power_bound 0 n (omega arith) in seen-small n a (omega arith) le ∙ z

-- A double word that is a number up to multiples of 2 ^ 64.
abbrev Is : ℕ → DoubleWord → Type 0
Is x r = IsDouble r × Cong (value r) x

mult_loop-Is :
    (n a : ℕ) (b r : DoubleWord)
    → n ≤ 32
    → IsDouble b
    → IsDouble r
    → Is (value r + seen n a * value b) (mult_loop n a b r)
unfolding mult_loop
mult_loop-Is zero a b r le hb hr = let z = seen-zero a in (hr, (0, 0, rw z (omega arith)))
mult_loop-Is (suc n) a b r le hb hr =
    let (hb', cb) = doubled-value b hb in
    let s = seen-suc n a in
    elim (Bool-cases (a % 2 == 1)) [
      | inl odd ↦
          let o : a % 2 ≡ 1 = ground (arith, odd) in
          let (hr', (k, l, e)) = add_double-value r b hr hb in
          elim (Bool-cases (a / 2 == 0)) [
            | inl last ↦
                let z = seen-one n (half a) (omega arith) (ground (arith, odd, last)) in
                let s' : seen (suc n) a ≡ 1 = omega arith in
                rw odd (rw last (hr', (k, l, rw s' (omega arith))))
            | inr more ↦
                let (h, c) =
                  mult_loop-Is n (half a) (doubled b) (add_double r b) (omega arith) hb' hr' in
                rw odd (
                  rw more (
                    h,
                    rw s (
                        rw o (
                          combined _ (value r) _ (value b) _ 1 (seen n (half a)) c
                            (k, l, omega arith) cb)),
                  ))
          ]
      | inr even ↦
          let o : a % 2 ≡ 0 = ground (arith, even) in
          let (h, c) = mult_loop-Is n (half a) (doubled b) r (omega arith) hb' hr in
          rw even (
            h,
            rw s (
                rw o (
                  combined _ (value r) _ (value b) _ 0 (seen n (half a)) c (0, 0, omega arith) cb)),
          )
    ]

-- A register as an int of 64 bits, or as an unsigned number.
abbrev pub extended : Bool → ℕ → ℕ
extended signed_arith a = if signed_arith && is_negative a then a + (2 ^ 64 - 2 ^ 32) else a

reduced : (x : ℕ) (r : DoubleWord) → Is x r → value r ≡ x % 2 ^ 64
reduced x r ((hi, lo), (k, l, e)) = omega arith

both_negative :
    (v a b a' b' : ℕ) → a' + a ≡ 2 ^ 64 → b' + b ≡ 2 ^ 64 → Cong v (a * b) → Cong v (a' * b')
both_negative v a b a' b' ea eb (k, l, e) =
    let p : (a' + a) * b' ≡ 2 ^ 64 * b' = ap (λ x. x * b') ea in
    let q : a * (b' + b) ≡ a * 2 ^ 64 = ap (λ x. a * x) eb in (k + b', l + a, omega arith)

one_negative :
    (v' v a b a' : ℕ) → a' + a ≡ 2 ^ 64 → Cong (v' + v) 0 → Cong v (a * b) → Cong v' (a' * b)
one_negative v' v a b a' ea (k1, l1, e1) (k2, l2, e2) =
    let p : (a' + a) * b ≡ 2 ^ 64 * b = ap (λ x. x * b) ea in (b + l2 + k1, l1 + k2, omega arith)

magnitude-small : (s : Bool) (a : ℕ) → a < 2 ^ 32 → magnitude s a < 2 ^ 32
magnitude-small s a lt = ground arith

loop_multiplies :
    (s : Bool) (a b : ℕ)
    → a < 2 ^ 32
    → b < 2 ^ 32
    → Is (magnitude s a * magnitude s b) (
        mult_loop 32
          (magnitude s a)
          (record { hi = 0; lo = magnitude s b })
          (record { hi = 0; lo = 0 }))
loop_multiplies s a b la lb =
    let ma = magnitude-small s a la in
    let (h, (k, l, e)) =
      mult_loop-Is 32 (magnitude s a) (record { hi = 0; lo = magnitude s b })
        (record { hi = 0; lo = 0 }) (omega arith) (omega arith, magnitude-small s b lb)
        (omega arith, omega arith) in
    let all = ap (λ x. x * magnitude s b) (seen_all (magnitude s a) ma) in (h, (k, l, omega arith))

-- A register and its magnitude, by its sign.
flips :
    (s : Bool) (a : ℕ)
    → a < 2 ^ 32
    → ((s && is_negative a) ≡ true) × (extended s a + magnitude s a ≡ 2 ^ 64)
      ⊎ ((s && is_negative a) ≡ false) × (extended s a ≡ magnitude s a)
flips true a lt = elim (Bool-cases (is_negative a)) [
  | inl minus ↦ inl (minus, ground (arith, minus))
  | inr plus ↦ inr (plus, ground (arith, plus))
]
flips false a lt = inr (refl, refl)

swapped_factors : (v a b : ℕ) → Cong v (a * b) → Cong v (b * a)
swapped_factors v a b (k, l, e) = (k, l, omega arith)

signed_product :
    (s : Bool) (a b : ℕ) (r : DoubleWord)
    → a < 2 ^ 32
    → b < 2 ^ 32
    → Is (magnitude s a * magnitude s b) r
    → Is (extended s a * extended s b) (if is_flipped s a b then complemented r else r)
signed_product s a b r la lb (h, c) =
    let (hc, cc) = complemented-value r h in
    elim (flips s a la) [
      | inl (na, ea) ↦ elim (flips s b lb) [
        | inl (nb, eb) ↦
            let f : is_flipped s a b ≡ false = ground (arith, na, nb) in
            rw f (h, both_negative _ _ _ _ _ ea eb c)
        | inr (nb, eb) ↦
            let f : is_flipped s a b ≡ true = ground (arith, na, nb) in
            rw f (hc, rw eb (one_negative _ _ _ _ _ ea cc c))
      ]
      | inr (na, ea) ↦ elim (flips s b lb) [
        | inl (nb, eb) ↦
            let f : is_flipped s a b ≡ true = ground (arith, na, nb) in
            let turned = one_negative _ _ _ _ _ eb cc (swapped_factors _ _ _ c) in
            rw f (hc, rw ea (swapped_factors _ _ _ turned))
        | inr (nb, eb) ↦
            let f : is_flipped s a b ≡ false = ground (arith, na, nb) in rw f (h, rw ea (rw eb c))
      ]
    ]

extended-zero : (s : Bool) (a : ℕ) → a ≡ 0 → extended s a ≡ 0
extended-zero s a z = ground (arith, z)

zero_factor : (s : Bool) (a b : ℕ) → (a == 0 || b == 0) ≡ true → extended s a * extended s b ≡ 0
zero_factor s a b nothing = elim (Bool-cases (a == 0)) [
  | inl here ↦
      let z = extended-zero s a (ground (arith, here)) in ap (λ x. x * extended s b) z ∙ omega arith
  | inr away ↦
      let z = extended-zero s b (ground (arith, nothing, away)) in
      ap (λ x. extended s a * x) z ∙ omega arith
]

-- `Mult` gives the two words of the product of its operands, modulo 2 ^ 64: of the ints that they are,
-- sign-extended to 64 bits, for a signed multiplication, and of the unsigned numbers for an unsigned one.
pub mult-value :
    (a b : ℕ) (signed_arith : Bool)
    → a < 2 ^ 32
    → b < 2 ^ 32
    → let r = mult a b signed_arith in
      (r.hi < 2 ^ 32)
      × (r.lo < 2 ^ 32)
      × (r.hi * 2 ^ 32 + r.lo ≡ extended signed_arith a * extended signed_arith b % 2 ^ 64)
unfolding mult
mult-value a b s la lb = elim (Bool-cases (a == 0 || b == 0)) [
  | inl nothing ↦
      let p : extended s a * extended s b ≡ 0 = zero_factor s a b nothing in
      rw nothing (omega arith, omega arith, ap (λ x. x % 2 ^ 64) (sym p))
  | inr both ↦
      let is = signed_product s a b _ la lb (loop_multiplies s a b la lb) in
      rw both (is.0.0, is.0.1, reduced _ _ is)
]
