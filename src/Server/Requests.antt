-- ===== src/Server/Requests.antt =====
-- What `sendToServer` writes is what the loop of `Server` reads.
use mathlib.Core.List.{append-nil}
use cs350project.Prelude.{
  ℕ, ◌≡◌, refl, sym, ap, ◌∙◌, ◌==◌, false, ℤ, some, List, [], ◌∷◌, ◌++◌, arith,
}
use cs350project.Server.Wire.{
  is_space, is_digit, skip_space, first_char, read_char, show_int, read_int, request_text,
}
use cs350project.Server.Dispatch.{read_call}
use cs350project.Server.Numerals.{IsInt, Stops, read_int-show, read_int-blank}

skip-keep : (c : ℕ) (s : List ℕ) → is_space c ≡ false → skip_space (c ∷ s) ≡ c ∷ s
unfolding skip_space
skip-keep c s h = rw h

read_char-keep : (old c : ℕ) (s : List ℕ) → is_space c ≡ false → read_char old (c ∷ s) ≡ (c, s)
unfolding read_char
read_char-keep old c s h = ap (first_char old) (skip-keep c s h)

read_char-blank : (old : ℕ) (s : List ℕ) → read_char old (b' ' ∷ s) ≡ read_char old s
unfolding read_char skip_space is_space
read_char-blank old s = refl

abbrev three : ℤ → ℤ → ℤ → List ℕ
three i1 i2 i3 = show_int i1 ++ (b' ' ∷ (show_int i2 ++ (b' ' ∷ show_int i3)))

blank-Stops : (s : List ℕ) → Stops (b' ' ∷ s)
unfolding is_digit
blank-Stops s = refl

-- The three indices, one after the other.
read_three :
    (i1 i2 i3 : ℤ)
    → IsInt i1
    → IsInt i2
    → IsInt i3
    → (read_int (some (b' ' ∷ three i1 i2 i3))
        ≡ (i1, some (b' ' ∷ (show_int i2 ++ (b' ' ∷ show_int i3)))))
      × (read_int (some (b' ' ∷ (show_int i2 ++ (b' ' ∷ show_int i3))))
          ≡ (i2, some (b' ' ∷ show_int i3)))
      × (read_int (some (b' ' ∷ show_int i3)) ≡ (i3, some []))
read_three i1 i2 i3 h1 h2 h3 = (
  read_int-blank (three i1 i2 i3)
      ∙ read_int-show i1 (b' ' ∷ (show_int i2 ++ (b' ' ∷ show_int i3))) h1
          (blank-Stops (show_int i2 ++ (b' ' ∷ show_int i3))),
  read_int-blank (show_int i2 ++ (b' ' ∷ show_int i3))
      ∙ read_int-show i2 (b' ' ∷ show_int i3) h2 (blank-Stops (show_int i3)),
  read_int-blank (show_int i3)
      ∙ (ap (λ s. read_int (some s)) (sym (append-nil (show_int i3))) ∙ read_int-show i3 [] h3 tt),
)

module _ (old1 old2 c1 c2 : ℕ) (old name : List ℕ) (i1 i2 i3 : ℤ) (h1 : is_space c1 ≡ false)
    (h2 : is_space c2 ≡ false) where
  request_shape :
      (c2 == b'C') ≡ false
      → request_text c1 c2 name i1 i2 i3 ≡ c1 ∷ b' ' ∷ c2 ∷ b' ' ∷ three i1 i2 i3
  unfolding request_text
  request_shape e = ground (arith, e)

  -- From the text that `sendToServer` writes for a call that is not a Create, the loop reads the two
  -- letters of its code and its three indices, and keeps the former name, if the letters are no white
  -- space and the indices fit an `int`.
  pub read_call-request_text :
      (c2 == b'C') ≡ false
      → IsInt i1
      → IsInt i2
      → IsInt i3
      → (read_call old1 old2 old (request_text c1 c2 name i1 i2 i3) ≡ record {
        code1 = c1;
        code2 = c2;
        name = old;
        index1 = i1;
        rest = some (b' ' ∷ (show_int i2 ++ (b' ' ∷ show_int i3)));
      })
        × (read_int (some (b' ' ∷ (show_int i2 ++ (b' ' ∷ show_int i3))))
            ≡ (i2, some (b' ' ∷ show_int i3)))
        × (read_int (some (b' ' ∷ show_int i3)) ≡ (i3, some []))
  unfolding read_call
  read_call-request_text e k1 k2 k3 =
      let (first, second, third) = read_three i1 i2 i3 k1 k2 k3 in
      let one = read_char-keep old1 c1 (b' ' ∷ c2 ∷ b' ' ∷ three i1 i2 i3) h1 in
      let two =
        read_char-blank old2 (c2 ∷ b' ' ∷ three i1 i2 i3)
        ∙ read_char-keep old2 c2 (b' ' ∷ three i1 i2 i3) h2 in
      (rw (request_shape e, one, two, first, e), second, third)
