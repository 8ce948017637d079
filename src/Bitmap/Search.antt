-- ===== src/Bitmap/Search.antt =====
-- What `Find`, `NumClear` and the constructor promise to the file system, which keeps its free
-- sectors in a bitmap.
use cs350project.Prelude.{
  ℕ, zero, suc, ◌+◌, ◌*◌, ◌≤◌, ◌<◌, ◌≡◌, refl, sym, ap, subst, ◌∙◌, ◌==◌, ltb, leb, ◌&&◌,
  if◌then◌else◌, Bool, true, false, pos, minus_one, Option, none, some, List, [], ◌∷◌, length, set,
  get_elem?, arith, ◌↔◌, Option-cases, inl, inr,
}
use cs350project.Bitmap.{
  BitMap, mark_bit, clear_bit, test_bit, test, clear_from, find, num_clear, new_bitmap,
  div_round_up,
}
use cs350project.Bitmap.Laws.{IsSized, clear_bit-IsSized, test_bit-mark_bit, test_bit-clear_bit}
use cs350project.Bitmap.View.{
  view, first_clear, clear_bits, bits_from, taken, view-mark_bit, find_refines, num_clear_lem,
}

-- The first clear bit of a list: it is clear, and taking it leaves one clear bit fewer.
first_clear-get :
    (i k : ℕ) (bs : List Bool)
    → first_clear i bs ≡ some k
    → (d : ℕ) × (k ≡ i + d)
      × (get_elem? bs d ≡ some false)
      × (clear_bits bs ≡ clear_bits (set bs d true) + 1)
first_clear-get i k [] h = absurd (cc)
first_clear-get i k (false ∷ bs) h = (zero, ground arith, refl, refl)
first_clear-get i k (true ∷ bs) h =
    let (d, e, got, count) = first_clear-get (i + 1) k bs h in (suc d, omega arith, got, count)

pub first_clear-none : (i : ℕ) (bs : List Bool) → (first_clear i bs ≡ none) ↔ (clear_bits bs ≡ 0)
first_clear-none i [] = ground arith
first_clear-none i (false ∷ bs) = ground arith
first_clear-none i (true ∷ bs) = first_clear-none (i + 1) bs

get_bits_from :
    (n i k : ℕ) (b : BitMap) (x : Bool)
    → get_elem? (bits_from n i b) k ≡ some x
    → (k < n) × (test_bit b (i + k) ≡ x)
get_bits_from zero i k b x h = absurd (cc)
get_bits_from (suc n) i zero b x h = ground arith
get_bits_from (suc n) i (suc k) b x h = ground (arith, get_bits_from n (i + 1) k b x h)

-- `Find` fails exactly when `NumClear` is zero, and then changes nothing.
pub find_full : (b : BitMap) → (find b ≡ (b, minus_one)) ↔ (num_clear b ≡ 0)
find_full b = ground (arith, find_refines b, num_clear_lem b, first_clear-none 0 (view b))

-- The facts of one successful `Find`.
pub record Allocated (b b' : BitMap) (i : ℕ) : Type 0 where
  pub inside : i < b.num_bits
  pub was_clear : test b (pos i) ≡ some false
  pub now_set : test b' (pos i) ≡ some true
  pub one_fewer : num_clear b ≡ num_clear b' + 1
  pub others_keep : (j : ℕ) → test b' (pos j) ≡ (if i == j then some true else test b (pos j))

pub mark_bit-num_bits : (b : BitMap) (i : ℕ) → (mark_bit b i).num_bits ≡ b.num_bits
unfolding mark_bit
mark_bit-num_bits b i = refl

marks_one :
    (b : BitMap) (i : ℕ)
    → IsSized b
    → first_clear 0 (view b) ≡ some i
    → Allocated b (mark_bit b i) i
unfolding test
marks_one b i h first =
    let (d, e, got, count) = first_clear-get 0 i (view b) first in
    let same : d ≡ i = omega (arith, e) in
    let (lt, clear_here) =
      get_bits_from b.num_bits 0 i b false
        (subst (λ d. get_elem? (view b) d ≡ some false) same got) in
    let zero_add : 0 + i ≡ i = omega arith in
    let is_clear : test_bit b i ≡ false = rw zero_add at clear_here in
    let size = mark_bit-num_bits b i in
    record {
      inside = lt;
      was_clear = ground arith;
      now_set = ground (arith, size, test_bit-mark_bit b i i h lt);
      one_fewer =
          rw (num_clear_lem b, num_clear_lem (mark_bit b i), view-mark_bit b i h lt)
            (subst (λ d. clear_bits (view b) ≡ clear_bits (set (view b) d true) + 1) same count);
      others_keep = λ j. ground (arith, lt, size, test_bit-mark_bit b i j h lt);
    }

-- A `Find` on a bitmap with a clear bit: the bit that it takes.
pub record Taken (b : BitMap) (i : ℕ) : Type 0 where
  pub result : find b ≡ (mark_bit b i, pos i)
  pub inside : i < b.num_bits
  pub was_clear : test_bit b i ≡ false
  pub one_fewer : num_clear b ≡ num_clear (mark_bit b i) + 1

pub find_takes : (b : BitMap) → IsSized b → 0 < num_clear b → (i : ℕ) × Taken b i
unfolding test
find_takes b h some_clear = elim (Option-cases (first_clear 0 (view b))) [
  | inl full ↦ absurd (omega (arith, num_clear_lem b, (first_clear-none 0 (view b)).0 full))
  | inr (i, first) ↦
      let a = marks_one b i h first in
      (
        i,
        record {
          result = find_refines b ∙ ap (taken b) first;
          inside = a.inside;
          was_clear = ground (arith, a.was_clear, a.inside);
          one_fewer = a.one_fewer;
        },
      )
]

taken-some :
    (b b' : BitMap) (i : ℕ) (o : Option ℕ)
    → taken b o ≡ (b', pos i)
    → (o ≡ some i) × (mark_bit b i ≡ b')
taken-some b b' i none h = absurd (cc)
taken-some b b' i (some k) h = ground arith

-- A `Find` that returns a bit had that bit clear and sets it, changes no other bit, and leaves one
-- clear bit fewer, in a bitmap whose words hold its bits.
pub find_allocates : (b b' : BitMap) (i : ℕ) → IsSized b → find b ≡ (b', pos i) → Allocated b b' i
find_allocates b b' i h e =
    let (first, same) = taken-some b b' i (first_clear 0 (view b)) (sym (find_refines b) ∙ e) in
    subst (λ b'. Allocated b b' i) same (marks_one b i h first)

-- `Find` marks the bit that it returns.
pub find_marks :
    (b b' : BitMap) (i : ℕ)
    → IsSized b
    → find b ≡ (b', pos i)
    → (mark_bit b i ≡ b') × (i < b.num_bits) × (test_bit b i ≡ false)
unfolding test
find_marks b b' i h e =
    let (first, same) = taken-some b b' i (first_clear 0 (view b)) (sym (find_refines b) ∙ e) in
    let a = marks_one b i h first in (same, a.inside, ground (arith, a.was_clear, a.inside))

pub clear_bit-num_bits : (b : BitMap) (i : ℕ) → (clear_bit b i).num_bits ≡ b.num_bits
unfolding clear_bit
clear_bit-num_bits b i = refl

pub clear_from-num_bits : (n i : ℕ) (b : BitMap) → (clear_from n i b).num_bits ≡ b.num_bits
unfolding clear_from
clear_from-num_bits zero i b = refl
clear_from-num_bits (suc n) i b =
    clear_from-num_bits n (i + 1) (clear_bit b i) ∙ clear_bit-num_bits b i

-- Clearing a range leaves the bits before it, and clears its own.
pub clear_from_lem :
    (n i j : ℕ) (b : BitMap)
    → IsSized b
    → i + n ≤ b.num_bits
    → test_bit (clear_from n i b) j ≡ (if leb i j && ltb j (i + n) then false else test_bit b j)
unfolding clear_from
clear_from_lem zero i j b h le = ground arith
clear_from_lem (suc n) i j b h le =
    let size = clear_bit-num_bits b i in
    let rest =
      clear_from_lem n (i + 1) j (clear_bit b i) (clear_bit-IsSized b i h) (omega (arith, size)) in
    ground (arith, rest, test_bit-clear_bit b i j h (omega arith))

all_clear :
    (n i : ℕ) (b : BitMap)
    → ((j : ℕ) → i ≤ j → j < i + n → test_bit b j ≡ false)
    → clear_bits (bits_from n i b) ≡ n
all_clear zero i b h = refl
all_clear (suc n) i b h =
    let here : test_bit b i ≡ false = h i (omega arith) (omega arith) in
    let rest = all_clear n (i + 1) b λ j le lt. h j (omega arith) (omega arith) in
    ground (arith, here, rest)

-- A new bitmap of `n` bits has `n` clear bits, whatever its fresh words held, if there are as many
-- words as its constructor allocates.
pub num_clear-new_bitmap :
    (fresh : List ℕ) (n : ℕ) → length fresh ≡ div_round_up n 32 → num_clear (new_bitmap fresh n) ≡ n
unfolding new_bitmap div_round_up
num_clear-new_bitmap fresh n h =
    let b : BitMap = record { num_bits = n; num_words = div_round_up n 32; map = fresh } in
    let room : n ≤ length fresh * 32 = ground arith in
    let sized : IsSized b = record { room = room } in
    let size = clear_from-num_bits n 0 b in
    let cleared =
      all_clear n 0 (new_bitmap fresh n)
        λ j le lt. ground (arith, clear_from_lem n 0 j b sized (omega arith)) in
    num_clear_lem (new_bitmap fresh n)
    ∙ (ap (λ m. clear_bits (bits_from m 0 (new_bitmap fresh n))) size ∙ cleared)
