-- ===== src/Vm/Machine/Find.antt =====
-- The search of the TLB under the changes that a translation and a page fault make.
use cs350project.Prelude.{
  ℕ, zero, suc, ◌+◌, ◌<◌, ◌≤◌, ◌≡◌, refl, arith, ◌==◌, ◌&&◌, Bool, true, false, none, some,
  Bool-cases, inl, inr,
}
use cs350project.Vm.Machine.{TranslationEntry, unsigned, find_tlb, with_entry}

-- What the search compares.
abbrev pub hits : ℕ → TranslationEntry → Bool
hits vpn e = e.valid && unsigned e.virtual_page == vpn

pub find_tlb-some :
    (n i vpn k : ℕ) (tlb : ℕ → TranslationEntry)
    → find_tlb n i vpn tlb ≡ some k
    → (i ≤ k) × (k < i + n) × (hits vpn (tlb k) ≡ true)
unfolding find_tlb
find_tlb-some zero i vpn k tlb h = absurd (cc)
find_tlb-some (suc n) i vpn k tlb h = elim (Bool-cases (hits vpn (tlb i))) [
  | inl here ↦ ground (arith, here, h)
  | inr there ↦
      let (lo, hi, hit) = find_tlb-some n (i + 1) vpn k tlb (rw there at h) in
      (omega arith, omega arith, hit)
]

-- The search sees which pages hit only.
pub find_tlb-cong :
    (n i vpn : ℕ) (f g : ℕ → TranslationEntry)
    → ((j : ℕ) → hits vpn (f j) ≡ hits vpn (g j))
    → find_tlb n i vpn f ≡ find_tlb n i vpn g
unfolding find_tlb
find_tlb-cong zero i vpn f g h = refl
find_tlb-cong (suc n) i vpn f g h = rw (h i, find_tlb-cong n (i + 1) vpn f g h) refl

-- Entries that miss stay missed when they are made invalid.
pub find_tlb-fewer :
    (n i vpn : ℕ) (f g : ℕ → TranslationEntry)
    → ((j : ℕ) → hits vpn (f j) ≡ false → hits vpn (g j) ≡ false)
    → find_tlb n i vpn f ≡ none
    → find_tlb n i vpn g ≡ none
unfolding find_tlb
find_tlb-fewer zero i vpn f g h e = refl
find_tlb-fewer (suc n) i vpn f g h e = elim (Bool-cases (hits vpn (f i))) [
  | inl here ↦ absurd (ground (arith, here, e))
  | inr there ↦ rw (h i there) (find_tlb-fewer n (i + 1) vpn f g h (rw there at e))
]

-- A page that missed is found in the slot that it is loaded into.
pub find_tlb-with_entry :
    (n i vpn k : ℕ) (e : TranslationEntry) (tlb : ℕ → TranslationEntry)
    → find_tlb n i vpn tlb ≡ none
    → hits vpn e ≡ true
    → i ≤ k
    → k < i + n
    → find_tlb n i vpn (with_entry tlb k e) ≡ some k
unfolding find_tlb
find_tlb-with_entry zero i vpn k e tlb miss hit lo hi = absurd (omega arith)
find_tlb-with_entry (suc n) i vpn k e tlb miss hit lo hi = elim (Bool-cases (hits vpn (tlb i))) [
  | inl here ↦ absurd (ground (arith, here, miss))
  | inr there ↦ elim (Bool-cases (k == i)) [
    | inl same ↦ ground (arith, same, hit)
    | inr other ↦
        let rest =
          find_tlb-with_entry n (i + 1) vpn k e tlb (rw there at miss) hit (ground arith)
            (omega arith) in
        rw (other, there) rest
  ]
]
