-- ===== src/Vm/Space/Release.antt =====
-- The ends of threads and processes.
use cs350project.Prelude.{
  ℕ, zero, suc, ◌+◌, ◌<◌, ◌≤◌, ◌≡◌, ◌≢◌, refl, sym, ◌∙◌, ap, arith, ◌==◌, ltb, true, false, ℤ, pos,
  negsuc, eqb_ℤ, eqb_ℤ_iff, Option, none, some, get_elem?, set, Bool-cases, Option-cases, inl, inr,
  ==_iff, subst, ◌⊎◌,
}
use cs350project.Bitmap.{BitMap, clear, clear_bit, test_bit}
use cs350project.Bitmap.Laws.{IsSized, clear_bit-IsSized, test_bit-clear_bit}
use cs350project.Vm.Machine.{TranslationEntry, with_entry}
use cs350project.Vm.Paging.{ExtendedTranslationEntry, IptEntry, Vm}
use cs350project.Vm.Handler.Invariant.{IsSound}
use cs350project.Vm.Space.{
  assigned, assign_from, is_absent, without_frame, Stack, release_page, release_stack,
  release_frames, delete_space,
}

assign_from-other :
    (n i k j : ℕ) (tlb : ℕ → TranslationEntry) → j < i → assign_from n i k tlb j ≡ tlb j
unfolding assign_from
assign_from-other zero i k j tlb lt = refl
assign_from-other (suc n) i k j tlb lt =
    assign_from-other n (i + 1) k j (with_entry tlb i (assigned k (tlb i))) (omega arith)
    ∙ ground arith

assign_from-invalid :
    (n i k j : ℕ) (tlb : ℕ → TranslationEntry)
    → k ≢ 0
    → i ≤ j
    → j < i + n
    → (assign_from n i k tlb j).valid ≡ false
unfolding assign_from
assign_from-invalid zero i k j tlb ne lo hi = absurd (omega arith)
assign_from-invalid (suc n) i k j tlb ne lo hi =
    let tlb' = with_entry tlb i (assigned k (tlb i)) in
    elim (Bool-cases (i == j)) [
      | inl same ↦
          ap (λ (e : TranslationEntry). e.valid)
            (assign_from-other n (i + 1) k j tlb' (ground (arith, same)))
          ∙ ground (arith, same, ne)
      | inr other ↦ assign_from-invalid n (i + 1) k j tlb' ne (ground (arith, other)) (omega arith)
    ]

-- Deleting a thread keeps invalid entries invalid.
assign_from-keeps :
    (n i k j : ℕ) (tlb : ℕ → TranslationEntry)
    → (tlb j).valid ≡ false
    → (assign_from n i k tlb j).valid ≡ false
unfolding assign_from
assign_from-keeps zero i k j tlb h = h
assign_from-keeps (suc n) i k j tlb h =
    assign_from-keeps n (i + 1) k j (with_entry tlb i (assigned k (tlb i)))
      (elim (Bool-cases (i == j)) [
        | inl same ↦
            let here : (tlb i).valid ≡ false = ap (λ m. (tlb m).valid) ((==_iff i j).0 same) ∙ h in
            rw same (ground (arith, here))
        | inr other ↦ rw other h
      ])

release_page-keeps :
    (k j : ℕ) (s s' : Stack) (o : Option ExtendedTranslationEntry)
    → release_page k s o ≡ some s'
    → (s.tlb j).valid ≡ false
    → (s'.tlb j).valid ≡ false
release_page-keeps k j s s' none h e = absurd (cc)
release_page-keeps k j s s' (some e) h invalid =
    elim (Bool-cases (is_absent e.entry.physical_page)) [
      | inl gone ↦ ground (arith, gone, h, invalid)
      | inr there ↦ elim (Option-cases (clear s.frames e.entry.physical_page)) [
        | inl failed ↦ absurd (ground (arith, there, failed, h))
        | inr (frames, cleared) ↦
            ground (arith, there, cleared, h, assign_from-keeps 4 0 k j s.tlb invalid)
      ]
    ]

release_stack-keeps :
    (n k j : ℕ) (s s' : Stack)
    → release_stack n k s ≡ some s'
    → (s.tlb j).valid ≡ false
    → (s'.tlb j).valid ≡ false
unfolding release_stack
release_stack-keeps zero k j s s' h invalid = ground (arith, h, invalid)
release_stack-keeps (suc n) k j s s' h invalid =
    elim (Option-cases (release_page k s (get_elem? s.table k))) [
      | inl failed ↦ absurd (ground (arith, failed, h))
      | inr (s1, went) ↦
          release_stack-keeps n (k + 1) j s1 s' (rw went at h)
            (release_page-keeps k j s s1 (get_elem? s.table k) went invalid)
    ]

-- A thread whose stack starts in a page that is in a frame, and not in page 0, is deleted: if that
-- succeeds, no TLB entry is valid any more, whatever page it was for.
pub release_stack_drops_tlb :
    (n k j f : ℕ) (s s' : Stack) (e : ExtendedTranslationEntry)
    → get_elem? s.table k ≡ some e
    → e.entry.physical_page ≡ pos f
    → k ≢ 0
    → j < 4
    → release_stack (suc n) k s ≡ some s'
    → (s'.tlb j).valid ≡ false
unfolding release_stack
release_stack_drops_tlb n k j f s s' e found frame ne lt h =
    elim (Option-cases (clear s.frames (pos f))) [
      | inl failed ↦ absurd (ground (arith, found, frame, failed, h))
      | inr (frames, cleared) ↦
          let s1 : Stack = record {
            frames = frames;
            tlb = assign_from 4 0 k s.tlb;
            table = set s.table k (without_frame e);
          } in
          let went : release_page k s (get_elem? s.table k) ≡ some s1 =
            rw found (ground (arith, frame, cleared)) in
          release_stack-keeps n (k + 1) j s1 s' (rw went at h)
            (assign_from-invalid 4 0 k j s.tlb ne (omega arith) (omega arith))
    ]

clear-some :
    (b b' : BitMap) (p : ℤ) (i : ℕ)
    → clear b p ≡ some b'
    → IsSized b
    → IsSized b'
      × (test_bit b i ≡ false → test_bit b' i ≡ false)
      × (p ≡ pos i → test_bit b' i ≡ false)
unfolding clear
clear-some b b' (negsuc p) i h sized = absurd (cc)
clear-some b b' (pos p) i h sized = elim (Bool-cases (ltb p b.num_bits)) [
  | inl inside ↦
      let same : clear_bit b p ≡ b' = ground (arith, inside, h) in
      let after = test_bit-clear_bit b p i sized (ground (arith, inside)) in
      (
        subst IsSized same (clear_bit-IsSized b p sized),
        (λ was. ap (λ b. test_bit b i) (sym same) ∙ ground (arith, after, was)),
        λ here. ap (λ b. test_bit b i) (sym same) ∙ ground (arith, after, here),
      )
  | inr outside ↦ absurd (ground (arith, outside, h))
]

freed :
    (n i f : ℕ) (owner : ℤ) (ipt : ℕ → IptEntry) (b b' : BitMap)
    → release_frames n i owner ipt b ≡ some b'
    → IsSized b
    → (ipt f).space_owner ≡ owner
    → (ipt f).entry.physical_page ≡ pos f
    → (test_bit b f ≡ false) ⊎ ((i ≤ f) × (f < i + n))
    → test_bit b' f ≡ false
unfolding release_frames
freed zero i f owner ipt b b' h sized o p (inl clear) = ground (arith, h, clear)
freed zero i f owner ipt b b' h sized o p (inr (lo, hi)) = absurd (omega arith)
freed (suc n) i f owner ipt b b' h sized o p s =
    elim (Bool-cases (eqb_ℤ (ipt i).space_owner owner)) [
      | inl mine ↦ elim (Option-cases (clear b (ipt i).entry.physical_page)) [
        | inl failed ↦ absurd (ground (arith, mine, failed, h))
        | inr (b1, cleared) ↦
            let (sized1, still, here) =
              clear-some b b1 (ipt i).entry.physical_page f cleared sized in
            freed n (i + 1) f owner ipt b1 b' (ground (arith, mine, cleared, h)) sized1 o p
              (later b1 still here s)
      ]
      | inr other ↦
          freed n (i + 1) f owner ipt b b' (ground (arith, other, h)) sized o p (passed other s)
    ]
  where
    later :
        (b1 : BitMap)
        → (test_bit b f ≡ false → test_bit b1 f ≡ false)
        → ((ipt i).entry.physical_page ≡ pos f → test_bit b1 f ≡ false)
        → (test_bit b f ≡ false) ⊎ ((i ≤ f) × (f < i + suc n))
        → (test_bit b1 f ≡ false) ⊎ ((i + 1 ≤ f) × (f < i + 1 + n))
    later b1 still here (inl c) = inl (still c)
    later b1 still here (inr (lo, hi)) = elim (Bool-cases (i == f)) [
      | inl same ↦ inl (here (ap (λ m. (ipt m).entry.physical_page) ((==_iff i f).0 same) ∙ p))
      | inr other ↦ inr (ground (arith, other), omega arith)
    ]

    passed :
        eqb_ℤ (ipt i).space_owner owner ≡ false
        → (test_bit b f ≡ false) ⊎ ((i ≤ f) × (f < i + suc n))
        → (test_bit b f ≡ false) ⊎ ((i + 1 ≤ f) × (f < i + 1 + n))
    passed other (inl c) = inl c
    passed other (inr (lo, hi)) = elim (Bool-cases (i == f)) [
      | inl same ↦
          let mine : (ipt i).space_owner ≡ owner =
            ap (λ m. (ipt m).space_owner) ((==_iff i f).0 same) ∙ o in
          absurd (ground (arith, other, (eqb_ℤ_iff (ipt i).space_owner owner).1 mine))
      | inr apart ↦ inr (ground (arith, apart), omega arith)
    ]

-- If the deletion of an address space succeeds, in a sound state in which the process has a page in a
-- frame, that frame is free in the bitmap while the inverted page table still has it as valid, for
-- the process: the state is not sound any more.
pub delete_space_unsound :
    (f : ℕ) (vm vm' : Vm)
    → IsSound vm
    → f < 32
    → (vm.ipt f).entry.valid ≡ true
    → delete_space (vm.ipt f).space_owner vm ≡ some vm'
    → (test_bit vm'.frames f ≡ false) × ((vm'.ipt f).entry.valid ≡ true) × (IsSound vm' → ⊥)
unfolding delete_space
delete_space_unsound f vm vm' h below valid done =
    elim (Option-cases (release_frames 32 0 (vm.ipt f).space_owner vm.ipt vm.frames)) [
      | inl failed ↦ absurd (ground (arith, failed, done))
      | inr (frames, went) ↦
          let same : record vm { frames = frames } ≡ vm' = ground (arith, rw went at done) in
          let home = h.at_home f below (omega arith) valid in
          let free : test_bit frames f ≡ false =
            freed 32 0 f (vm.ipt f).space_owner vm.ipt vm.frames frames went h.sized refl home
              (inr (omega arith, below)) in
          let free' : test_bit vm'.frames f ≡ false =
            ap (λ (v : Vm). test_bit v.frames f) (sym same) ∙ free in
          let valid' : (vm'.ipt f).entry.valid ≡ true =
            ap (λ (v : Vm). (v.ipt f).entry.valid) (sym same) ∙ valid in
          (
            free',
            valid',
            λ s. absurd (ground (arith, free', valid', s.marked f below (omega arith))),
          )
    ]
