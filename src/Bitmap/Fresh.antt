-- ===== src/Bitmap/Fresh.antt =====
-- A bitmap that has just been made, and the count of its clear bits as bits are marked.
use cs350project.Prelude.{
  ℕ, zero, suc, ◌+◌, ◌*◌, ◌≤◌, ◌<◌, ◌≡◌, ap, ◌∙◌, Bool, true, false, pos, none, some, List, [], sym,
  ◌∷◌, length, set, get_elem?, arith,
}
use cs350project.Bitmap.{
  BitMap, mark_bit, clear_bit, test_bit, mark, clear_from, new_bitmap, num_clear, div_round_up,
}
use cs350project.Bitmap.Laws.{IsSized, clear_bit-IsSized}
use cs350project.Bitmap.View.{
  first_clear, view, bits_from, clear_bits, view-mark_bit, num_clear_lem,
}
use cs350project.Bitmap.Search.{clear_from_lem, clear_from-num_bits, first_clear-none}

clear_from-IsSized : (n i : ℕ) (b : BitMap) → IsSized b → IsSized (clear_from n i b)
unfolding clear_from
clear_from-IsSized zero i b h = h
clear_from-IsSized (suc n) i b h =
    clear_from-IsSized n (i + 1) (clear_bit b i) (clear_bit-IsSized b i h)

-- The words hold the bits, and all of them are clear.
pub record IsFresh (n : ℕ) (b : BitMap) : Type 0 where
  pub size : b.num_bits ≡ n
  pub sized : IsSized b
  pub clear : (j : ℕ) → j < n → test_bit b j ≡ false

pub new_bitmap-IsFresh :
    (words : List ℕ) (n : ℕ) → length words ≡ div_round_up n 32 → IsFresh n (new_bitmap words n)
unfolding new_bitmap div_round_up
new_bitmap-IsFresh words n h =
    let b : BitMap = record { num_bits = n; num_words = div_round_up n 32; map = words } in
    let room : n ≤ length words * 32 = ground arith in
    let sized : IsSized b = record { room = room } in
    record {
      size = clear_from-num_bits n 0 b;
      sized = clear_from-IsSized n 0 b sized;
      clear = λ j lt. ground (arith, clear_from_lem n 0 j b sized (omega arith));
    }

get-bits_from :
    (n i k : ℕ) (b : BitMap) → k < n → get_elem? (bits_from n i b) k ≡ some (test_bit b (i + k))
get-bits_from zero i k b h = absurd (omega arith)
get-bits_from (suc n) i zero b h = let same : i + 0 ≡ i = omega arith in rw same
get-bits_from (suc n) i (suc k) b h =
    let same : i + suc k ≡ i + 1 + k = omega arith in
    rw same (get-bits_from n (i + 1) k b (omega arith))

clear_bits-set :
    (bs : List Bool) (i : ℕ)
    → get_elem? bs i ≡ some false
    → clear_bits bs ≡ clear_bits (set bs i true) + 1
clear_bits-set [] i h = absurd (cc)
clear_bits-set (x ∷ bs) zero h = ground arith
clear_bits-set (true ∷ bs) (suc i) h = clear_bits-set bs i h
clear_bits-set (false ∷ bs) (suc i) h = omega (arith, clear_bits-set bs i h)

-- Marking a clear bit leaves one clear bit fewer.
pub num_clear-mark_bit :
    (b : BitMap) (i : ℕ)
    → IsSized b
    → i < b.num_bits
    → test_bit b i ≡ false
    → num_clear b ≡ num_clear (mark_bit b i) + 1
num_clear-mark_bit b i h lt free =
    let zero_add : 0 + i ≡ i = omega arith in
    let here : get_elem? (view b) i ≡ some false =
      get-bits_from b.num_bits 0 i b lt ∙ ap some (ap (test_bit b) zero_add ∙ free) in
    rw (num_clear_lem b, num_clear_lem (mark_bit b i), view-mark_bit b i h lt)
      (clear_bits-set (view b) i here)

pub mark_succeeds : (b : BitMap) (i : ℕ) → i < b.num_bits → mark b (pos i) ≡ some (mark_bit b i)
unfolding mark
mark_succeeds b i lt = ground arith

first_clear-none_get :
    (i d : ℕ) (bs : List Bool) (x : Bool)
    → first_clear i bs ≡ none
    → get_elem? bs d ≡ some x
    → x ≡ true
first_clear-none_get i d [] x h got = absurd (cc)
first_clear-none_get i d (false ∷ bs) x h got = absurd (cc)
first_clear-none_get i zero (true ∷ bs) x h got = ground (arith, got)
first_clear-none_get i (suc d) (true ∷ bs) x h got = first_clear-none_get (i + 1) d bs x h got

-- In a bitmap with no clear bit every bit is set.
pub all_set : (b : BitMap) (i : ℕ) → num_clear b ≡ 0 → i < b.num_bits → test_bit b i ≡ true
all_set b i full lt =
    let z : 0 + i ≡ i = omega arith in
    ap (test_bit b) (sym z)
    ∙ first_clear-none_get 0 i (view b) (test_bit b (0 + i))
        ((first_clear-none 0 (view b)).1 (sym (num_clear_lem b) ∙ full))
        (get-bits_from b.num_bits 0 i b lt)
