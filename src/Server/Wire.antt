-- ===== src/Server/Wire.antt =====
-- userprog/lock_syscalls.cc (`sendToServer`) and the head of the loop in network/nettest.cc: requests
-- as texts. The stream operators are those of the standard library.
use cs350project.Prelude.{
  ℕ, zero, suc, ◌+◌, ◌*◌, ◌-◌, ◌/◌, ◌%◌, ◌^◌, ltb, leb, ◌==◌, if◌then◌else◌, Bool, true, false,
  ◌&&◌, ◌||◌, ℤ, pos, negsuc, minus_one, Option, none, some, List, [], ◌∷◌, ◌++◌,
}

abbrev pub max_int : ℕ
max_int = 2 ^ 31 - 1

-- stream << int: the digits, most significant first, before `tail`.
unfoldable pub show_digits : ℕ → ℕ → List ℕ → List ℕ
show_digits zero n tail = tail
show_digits (suc fuel) n tail =
    let rest = show_digits fuel (n / 10) ((b'0' + n % 10) ∷ tail) in
    if ltb n 10 then (b'0' + n) ∷ tail else rest

-- An `int` has at most ten digits.
unfoldable pub show_int : ℤ → List ℕ
show_int (pos n) = show_digits 10 n []
show_int (negsuc n) = b'-' ∷ show_digits 10 (n + 1) []

unfoldable pub is_space : ℕ → Bool
is_space c = c == 32 || leb 9 c && leb c 13

unfoldable pub is_digit : ℕ → Bool
is_digit c = leb b'0' c && leb c b'9'

unfoldable pub skip_space : List ℕ → List ℕ
skip_space [] = []
skip_space (c ∷ s) = if is_space c then skip_space s else c ∷ s

abbrev pub first_char : ℕ → List ℕ → ℕ × List ℕ
first_char c [] = (c, [])
first_char c (d ∷ rest) = (d, rest)

-- stream >> char; at the end of the text the variable keeps its value `c`.
unfoldable pub read_char : ℕ → List ℕ → ℕ × List ℕ
read_char c s = first_char c (skip_space s)

-- The characters up to the next white space, and the rest.
unfoldable pub split_word : List ℕ → List ℕ × List ℕ
split_word [] = ([], [])
split_word (c ∷ s) =
    let (word, rest) = split_word s in if is_space c then ([], c ∷ s) else (c ∷ word, rest)

-- stream >> char[]
unfoldable pub read_word : List ℕ → List ℕ → List ℕ × List ℕ
read_word old s = elim (skip_space s) [ [] ↦ (old, []) | d ∷ rest ↦ split_word (d ∷ rest) ]

-- The number that the leading digits stand for, after `acc`, and what follows them.
unfoldable pub digits_value : ℕ → List ℕ → ℕ × List ℕ
digits_value acc [] = (acc, [])
digits_value acc (c ∷ s) =
    let rest = digits_value (acc * 10 + (c - b'0')) s in if is_digit c then rest else (acc, c ∷ s)

-- A numeral beyond the range of `int` stores the nearest bound and fails the stream (`none`).
abbrev pub to_int : Bool → ℕ × List ℕ → ℤ × Option (List ℕ)
to_int negative (n, rest) =
    if negative
    then elim n [
      | zero ↦ (pos 0, some rest)
      | suc k ↦ if leb k max_int then (negsuc k, some rest) else (negsuc max_int, none)
    ]
    else if leb n max_int
    then (pos n, some rest)
    else (pos max_int, none)

-- A text with no digit at its head stores 0 and fails the stream.
unfoldable pub read_digits : Bool → List ℕ → ℤ × Option (List ℕ)
read_digits negative [] = (pos 0, none)
read_digits negative (c ∷ s) =
    if is_digit c then to_int negative (digits_value 0 (c ∷ s)) else (pos 0, none)

-- stream >> int over a variable that holds -1; a stream that has failed or is at its end leaves it.
unfoldable pub read_signed : List ℕ → ℤ × Option (List ℕ)
read_signed [] = (minus_one, none)
read_signed (c ∷ s) =
    if c == b'-'
    then read_digits true s
    else if c == b'+'
    then read_digits false s
    else read_digits false (c ∷ s)

unfoldable pub read_int : Option (List ℕ) → ℤ × Option (List ℕ)
read_int none = (minus_one, none)
read_int (some s) = read_signed (skip_space s)

-- `sendToServer`: the text of a request, by the two letters of its code.
unfoldable pub request_text : ℕ → ℕ → List ℕ → ℤ → ℤ → ℤ → List ℕ
request_text code1 code2 name i1 i2 i3 =
    code1
    ∷ b' '
    ∷ code2
    ∷ b' '
    ∷ (if code1 == b'M' && code2 == b'C'
        then name ++ (b' ' ∷ show_int i1)
        else if code2 == b'C'
        then name
        else show_int i1 ++ (b' ' ∷ (show_int i2 ++ (b' ' ∷ show_int i3))))
