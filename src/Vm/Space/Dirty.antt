-- ===== src/Vm/Space/Dirty.antt =====
-- The dirty bits of the TLB at a context switch.
use cs350project.Prelude.{
  ℕ, zero, suc, ◌+◌, ◌<◌, ◌≤◌, ◌≡◌, ◌⊎◌, refl, sym, ◌∙◌, ap, arith, ◌==◌, ◌&&◌, Bool, true, false,
  if◌then◌else◌, ℤ, pos, negsuc, eqb_ℤ, Option, none, some, Bool-cases, Option-cases, inl, inr,
  ==_iff,
}
use cs350project.Vm.Machine.{TranslationEntry, with_entry}
use cs350project.Vm.Paging.{Vm}
use cs350project.Vm.Handler.{write_back, set_dirty}
use cs350project.Vm.Space.{flush_at, flush_from, save_state}

set_dirty-ipt :
    (p : ℤ) (d : Bool) (f : ℕ) (vm vm' : Vm)
    → set_dirty p d vm ≡ some vm'
    → (vm'.tlb ≡ vm.tlb)
      × ((vm'.ipt f).entry.dirty ≡ (if eqb_ℤ p (pos f) then d else (vm.ipt f).entry.dirty))
set_dirty-ipt (negsuc g) d f vm vm' h = absurd (cc)
set_dirty-ipt (pos g) d f vm vm' h = ground (arith, h)

write_back-ipt :
    (e : TranslationEntry) (f : ℕ) (vm vm' : Vm)
    → write_back e vm ≡ some vm'
    → (vm'.tlb ≡ vm.tlb)
      × ((vm'.ipt f).entry.dirty
          ≡ (if e.valid && eqb_ℤ e.physical_page (pos f) then e.dirty else (vm.ipt f).entry.dirty))
unfolding write_back
write_back-ipt e f vm vm' h = elim (Bool-cases e.valid) [
  | inl v ↦ rw v (set_dirty-ipt e.physical_page e.dirty f vm vm' (ground (arith, v, h)))
  | inr i ↦ ground (arith, i, h)
]

-- A valid entry for the frame.
abbrev pub leads : ℕ → TranslationEntry → Bool
leads f e = e.valid && eqb_ℤ e.physical_page (pos f)

abbrev AllDirty : ℕ → ℕ → (ℕ → TranslationEntry) → Type 0
AllDirty i f tlb = (j : ℕ) → i ≤ j → j < 4 → leads f (tlb j) ≡ true → (tlb j).dirty ≡ true

abbrev SomeLeft : ℕ → ℕ → (ℕ → TranslationEntry) → Bool → Type 0
SomeLeft i f tlb dirty = (dirty ≡ true) ⊎ ((j : ℕ) × (i ≤ j) × (j < 4) × (leads f (tlb j) ≡ true))

-- One round, seen from the entries that are left.
module _ (i f : ℕ) (tlb : ℕ → TranslationEntry) (d : Bool) (all : AllDirty i f tlb) where
  some_left :
      (b : Bool)
      → leads f (tlb i) ≡ b
      → i < 4
      → SomeLeft i f tlb d
      → SomeLeft (i + 1) f tlb (if b then (tlb i).dirty else d)
  some_left true hit lt s = inl (all i (omega arith) lt hit)
  some_left false miss lt (inl wet) = inl wet
  some_left false miss lt (inr (j, lo, hi, hit)) = elim (Bool-cases (i == j)) [
    | inl same ↦ absurd (ground (arith, miss, hit, ap (λ k. leads f (tlb k)) ((==_iff i j).0 same)))
    | inr other ↦ inr (j, ground (arith, other), hi, hit)
  ]

module _ (i f : ℕ) (tlb tlb' : ℕ → TranslationEntry)
    (same : (j : ℕ) → i + 1 ≤ j → tlb' j ≡ tlb j) where
  all_carried : AllDirty i f tlb → AllDirty (i + 1) f tlb'
  all_carried all j lo hi hit =
      ap (λ (e : TranslationEntry). e.dirty) (same j lo)
      ∙ all j (omega arith) hi (ap (leads f) (sym (same j lo)) ∙ hit)

  some_carried : (d : Bool) → SomeLeft (i + 1) f tlb d → SomeLeft (i + 1) f tlb' d
  some_carried d (inl wet) = inl wet
  some_carried d (inr (j, lo, hi, hit)) = inr (j, lo, hi, ap (leads f) (same j lo) ∙ hit)

flush_from-dirty :
    (n i f : ℕ) (vm vm' : Vm)
    → i + n ≡ 4
    → flush_from n i vm ≡ some vm'
    → AllDirty i f vm.tlb
    → SomeLeft i f vm.tlb (vm.ipt f).entry.dirty
    → (vm'.ipt f).entry.dirty ≡ true
unfolding flush_from
flush_from-dirty zero i f vm vm' e h all (inl wet) =
    ap (λ (o : Option Vm). dirty_of o) (sym h) ∙ wet
  where
    dirty_of : Option Vm → Bool
    dirty_of none = false
    dirty_of (some vm) = (vm.ipt f).entry.dirty
flush_from-dirty zero i f vm vm' e h all (inr (j, lo, hi, hit)) = absurd (omega arith)
flush_from-dirty (suc n) i f vm vm' e h all s = elim (Option-cases (write_back (vm.tlb i) vm)) [
  | inl failed ↦ absurd (ground (arith, rw failed at h))
  | inr (vm1, wrote) ↦
      let (same, wet) = write_back-ipt (vm.tlb i) f vm vm1 wrote in
      let tlb' = with_entry vm1.tlb i (record (vm1.tlb i) { valid = false }) in
      let kept = λ (j : ℕ) (lo : i + 1 ≤ j). ap (λ t. t j) same in
      let kept' : (j : ℕ) → i + 1 ≤ j → tlb' j ≡ vm.tlb j = λ j lo. ground (arith, kept j lo) in
      let left =
        some_left i f vm.tlb (vm.ipt f).entry.dirty all (leads f (vm.tlb i)) refl (omega arith) s in
      let left' : SomeLeft (i + 1) f vm.tlb (vm1.ipt f).entry.dirty = rw wet left in
      flush_from-dirty n (i + 1) f (flush_at i vm1) vm' (omega arith) (rw wrote at h)
        (all_carried i f vm.tlb tlb' kept' all)
        (some_carried i f vm.tlb tlb' kept' (vm1.ipt f).entry.dirty left')
]

-- A `SaveState` that succeeds keeps the dirty bit of a frame: if a valid TLB entry leads to the frame and
-- all that do are dirty, the inverted page table has the frame as dirty.
pub save_state-dirty :
    (f j : ℕ) (vm vm' : Vm)
    → save_state vm ≡ some vm'
    → j < 4
    → leads f (vm.tlb j) ≡ true
    → ((i : ℕ) → i < 4 → leads f (vm.tlb i) ≡ true → (vm.tlb i).dirty ≡ true)
    → (vm'.ipt f).entry.dirty ≡ true
unfolding save_state
save_state-dirty f j vm vm' h lt hit all =
    flush_from-dirty 4 0 f vm vm' refl h (λ i lo. all i) (inr (j, omega arith, lt, hit))
