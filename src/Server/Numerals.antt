-- ===== src/Server/Numerals.antt =====
-- Numbers on the wire: what the stream writes is what it reads.
use cs350project.Prelude.{
  ℕ, zero, suc, ◌+◌, ◌*◌, ◌-◌, ◌/◌, ◌%◌, ◌^◌, ◌≤◌, ◌<◌, ◌≡◌, refl, ap, ◌∙◌, ltb, leb, ◌==◌,
  if◌then◌else◌, Bool, true, false, ◌&&◌, ◌||◌, ℤ, pos, negsuc, none, some, List, [], ◌∷◌, ◌++◌,
  arith, tests, Bool-cases, inl, inr,
}
use native.Mathlib.Nat.{pow-suc}
use cs350project.Server.Wire.{
  max_int, show_digits, show_int, is_space, is_digit, skip_space, digits_value, to_int, read_digits,
  read_signed, read_int,
}

show_digits-append :
    (fuel n : ℕ) (tail rest : List ℕ)
    → show_digits fuel n tail ++ rest ≡ show_digits fuel n (tail ++ rest)
unfolding show_digits
show_digits-append zero n tail rest = refl
show_digits-append (suc fuel) n tail rest = elim (Bool-cases (ltb n 10)) [
  | inl small ↦ rw small
  | inr large ↦ rw large (show_digits-append fuel (n / 10) _ rest)
]

digit_test : (n : ℕ) → n < 10 → is_digit (b'0' + n) ≡ true
unfolding is_digit
digit_test n h = ground arith

-- The numeral is read back as its number, before what follows it.
digits_value-show :
    (fuel n : ℕ) (tail : List ℕ)
    → n < 10 ^ fuel
    → digits_value 0 (show_digits fuel n tail) ≡ digits_value n tail
unfolding show_digits digits_value
digits_value-show zero n tail h = let zero_n : n ≡ 0 = omega arith in rw zero_n
digits_value-show (suc fuel) n tail h = elim (Bool-cases (ltb n 10)) [
  | inl small ↦
      let value : 0 * 10 + (b'0' + n - b'0') ≡ n = omega arith in
      rw (small, digit_test n (omega tests), value)
  | inr large ↦
      let power = pow-suc 10 fuel in
      let rest = digits_value-show fuel (n / 10) ((b'0' + n % 10) ∷ tail) (omega arith) in
      let value : n / 10 * 10 + (b'0' + n % 10 - b'0') ≡ n = omega arith in
      rw (large, rest, digit_test (n % 10) (omega arith), value)
]

-- A text that begins with a digit.
abbrev DigitFirst : List ℕ → Type 0
DigitFirst s = (d : ℕ) × (t : List ℕ) × (s ≡ d ∷ t) × (is_digit d ≡ true)

digit_first :
    (fuel n d : ℕ) (tail : List ℕ) → is_digit d ≡ true → DigitFirst (show_digits fuel n (d ∷ tail))
unfolding show_digits
digit_first zero n d tail h = (d, tail, refl, h)
digit_first (suc fuel) n d tail h = elim (Bool-cases (ltb n 10)) [
  | inl small ↦ rw small (b'0' + n, d ∷ tail, refl, digit_test n (omega tests))
  | inr large ↦
      rw large
        (digit_first fuel (n / 10) (b'0' + n % 10) (d ∷ tail) (digit_test (n % 10) (omega arith)))
]

show_first : (fuel n : ℕ) (tail : List ℕ) → DigitFirst (show_digits (suc fuel) n tail)
unfolding show_digits
show_first fuel n tail = elim (Bool-cases (ltb n 10)) [
  | inl small ↦ rw small (b'0' + n, tail, refl, digit_test n (omega tests))
  | inr large ↦
      rw large (digit_first fuel (n / 10) (b'0' + n % 10) tail (digit_test (n % 10) (omega arith)))
]

-- What follows a numeral: the end of the text, or no digit.
abbrev pub Stops : List ℕ → Type 0
Stops [] = Unit
Stops (c ∷ s) = is_digit c ≡ false

stops : (n : ℕ) (rest : List ℕ) → Stops rest → digits_value n rest ≡ (n, rest)
unfolding digits_value
stops n [] h = refl
stops n (c ∷ s) h = rw h

read_first :
    (negative : Bool) (s : List ℕ)
    → DigitFirst s
    → read_digits negative s ≡ to_int negative (digits_value 0 s)
unfolding read_digits
read_first negative [] (d, t, e, digit) = absurd (cc)
read_first negative (c ∷ s) (d, t, e, digit) =
    let same : c ≡ d = ground (arith, e) in
    let is : is_digit c ≡ true = rw same digit in
    ap (λ b. if b then to_int negative (digits_value 0 (c ∷ s)) else (pos 0, none)) is

read_digits-show :
    (negative : Bool) (n : ℕ) (rest : List ℕ)
    → n < 10 ^ 10
    → Stops rest
    → read_digits negative (show_digits 10 n rest) ≡ to_int negative (n, rest)
read_digits-show negative n rest h stop =
    read_first negative (show_digits 10 n rest) (show_first 9 n rest)
    ∙ ap (to_int negative) (digits_value-show 10 n rest h ∙ stops n rest stop)

-- A numeral with no sign is read from where it stands.
read_unsigned : (s : List ℕ) → DigitFirst s → read_int (some s) ≡ read_digits false s
unfolding read_int read_signed skip_space is_space is_digit
read_unsigned s (d, t, e, digit) =
    let no_space : (d == 32 || leb 9 d && leb d 13) ≡ false = ground arith in
    let no_minus : (d == b'-') ≡ false = ground arith in
    let no_plus : (d == b'+') ≡ false = ground arith in rw (e, no_space, no_minus, no_plus)

read_minus : (s : List ℕ) → read_int (some (b'-' ∷ s)) ≡ read_digits true s
unfolding read_int read_signed skip_space is_space
read_minus s = refl

-- C's `int`.
abbrev pub IsInt : ℤ → Type 0
IsInt (pos n) = n ≤ max_int
IsInt (negsuc n) = n ≤ max_int

pub read_int-show :
    (i : ℤ) (rest : List ℕ)
    → IsInt i
    → Stops rest
    → read_int (some (show_int i ++ rest)) ≡ (i, some rest)
unfolding show_int
read_int-show (pos n) rest h stop =
    let joined : show_digits 10 n [] ++ rest ≡ show_digits 10 n rest =
      show_digits-append 10 n [] rest in
    let fits : leb n max_int ≡ true = ground arith in
    rw
      (
        joined,
        read_unsigned (show_digits 10 n rest) (show_first 9 n rest),
        read_digits-show false n rest (omega arith) stop,
      )
      (rw fits)
read_int-show (negsuc n) rest h stop =
    let joined : show_digits 10 (n + 1) [] ++ rest ≡ show_digits 10 (n + 1) rest =
      show_digits-append 10 (n + 1) [] rest in
    let fits : leb n max_int ≡ true = ground arith in
    let next : n + 1 ≡ suc n = omega arith in
    rw joined (
      read_minus (show_digits 10 (n + 1) rest)
      ∙ (read_digits-show true (n + 1) rest (omega arith) stop ∙ rw (next, fits)))

-- A blank before a text is skipped.
pub read_int-blank : (s : List ℕ) → read_int (some (b' ' ∷ s)) ≡ read_int (some s)
unfolding read_int skip_space is_space
read_int-blank s = refl
