-- ===== src/Vm/Handler/Evict.antt =====
-- `handleMemoryFull`: it succeeds on a full memory, and leaves no TLB entry for the frame.
use cs350project.Prelude.{
  ℕ, zero, suc, ◌+◌, ◌*◌, ◌<◌, ◌≤◌, ◌≡◌, ◌≢◌, refl, sym, ◌∙◌, ap, arith, ◌==◌, ◌&&◌, Bool, true,
  false, ℤ, pos, negsuc, eqb_ℤ, eqb_ℤ_iff, eqb_ℤ_refl, Option, none, some, Bool-cases, inl, inr,
  subst,
}
use cs350project.Bitmap.{BitMap, find, num_clear, mark_bit, test_bit}
use cs350project.Bitmap.Laws.{IsSized, mark_bit-IsSized}
use cs350project.Bitmap.Search.{find_takes}
use cs350project.Vm.Machine.{TranslationEntry, find_tlb}
use cs350project.Vm.Machine.Find.{find_tlb-fewer, hits}
use cs350project.Vm.Paging.{
  ExtendedTranslationEntry, Process, File, Vm, write_page, process_at, page_of, page,
}
use cs350project.Vm.Paging.Tables.{Updated, updates}
use cs350project.Vm.Handler.{
  drop_hit, drop_page, dropped, save_at, save_frame, swapped_out, absent, forget_page, evict,
}
use cs350project.Vm.Handler.Invariant.{
  is_readable, IsSound, Placed, Mapped, Stepped, with_dirty-Alike, Gentle, Gentle-trans,
  Gentle-Stepped,
}

-- What is left valid by the loop over the TLB was there before, and is not the page.
pub record Survives (i n : ℕ) (k : ℤ) (owned : Bool) (e e' : TranslationEntry) (j : ℕ)
    : Type 0 where
  pub same : e' ≡ e
  pub other : i ≤ j → j < i + n → owned ≡ true → eqb_ℤ e.virtual_page k ≡ false

module _ (k : ℤ) (owned : Bool) (j : ℕ) where
  drop_hit-Survives :
      (b : Bool) (i : ℕ) (tlb : ℕ → TranslationEntry) (dirty : Bool)
      → (eqb_ℤ (tlb i).virtual_page k && (owned && (tlb i).valid)) ≡ b
      → ((drop_hit b i tlb dirty).0 j).valid ≡ true
      → Survives i 1 k owned (tlb j) ((drop_hit b i tlb dirty).0 j) j
  drop_hit-Survives true i tlb dirty hit v = elim (Bool-cases (i == j)) [
    | inl same ↦ absurd (ground (arith, same, v))
    | inr other ↦ record { same = rw other refl; other = λ lo hi o. absurd (ground (arith, other)) }
  ]
  drop_hit-Survives false i tlb dirty hit v = record {
    same = refl;
    other = λ lo hi o.
        let eq : i ≡ j = omega arith in
        let at_j =
          subst (λ m. (eqb_ℤ (tlb m).virtual_page k && (owned && (tlb m).valid)) ≡ false) eq hit in
        ground (arith, at_j, v, o);
  }

  drop_page-Survives :
      (n i : ℕ) (tlb : ℕ → TranslationEntry) (dirty : Bool)
      → ((drop_page n i k owned tlb dirty).0 j).valid ≡ true
      → Survives i n k owned (tlb j) ((drop_page n i k owned tlb dirty).0 j) j
  unfolding drop_page
  drop_page-Survives zero i tlb dirty v = record {
    same = refl;
    other = λ lo hi o. absurd (omega arith);
  }
  drop_page-Survives (suc n) i tlb dirty v =
      let b = eqb_ℤ (tlb i).virtual_page k && (owned && (tlb i).valid) in
      let (tlb', dirty') = drop_hit b i tlb dirty in
      let later = drop_page-Survives n (i + 1) tlb' dirty' v in
      let v' : (tlb' j).valid ≡ true =
        ap (λ (e : TranslationEntry). e.valid) (sym later.same) ∙ v in
      let here = drop_hit-Survives b i tlb dirty refl v' in
      record {
        same = later.same ∙ here.same;
        other = λ lo hi o. elim (Bool-cases (i == j)) [
          | inl same ↦ here.other lo (ground arith) o
          | inr other ↦
              ap (λ (e : TranslationEntry). eqb_ℤ e.virtual_page k) (sym here.same)
              ∙ later.other (ground (arith, other)) (omega arith) o
        ];
      }

pub page_of-process :
    (k : ℤ) (e : ExtendedTranslationEntry) (q : Option Process)
    → page_of q k ≡ some e
    → (p : Process) × (q ≡ some p)
page_of-process k e none h = absurd (cc)
page_of-process k e (some p) h = (p, refl)

pub own_id :
    (processes : ℕ → Option Process) (o : ℤ) (p : Process)
    → process_at processes o ≡ some p
    → ((o : ℕ) (p : Process) → processes o ≡ some p → p.space_id ≡ pos o)
    → eqb_ℤ o p.space_id ≡ true
own_id processes (negsuc o) p h named = absurd (cc)
own_id processes (pos o) p h named = rw (named o p h) (eqb_ℤ_refl (pos o))

module _ (vm : Vm) (map : BitMap) (file : File) (sized : IsSized map) where
  -- One entry of a page table changes, and the swap file with its bitmap.
  Updated-Gentle :
      (o k : ℤ) (f : ExtendedTranslationEntry → ExtendedTranslationEntry)
      (e : ExtendedTranslationEntry) (processes : ℕ → Option Process)
      → Updated o k f e vm.processes processes
      → is_readable (f e) ≡ true
      → ((o k : ℤ) (e : ExtendedTranslationEntry)
          → page vm.processes o k ≡ some e
          → is_readable e ≡ true)
      → ((o : ℕ) (p : Process) → vm.processes o ≡ some p → p.space_id ≡ pos o)
      → Gentle vm (record vm { swap_map = map; swapfile = file; processes = processes })
  Updated-Gentle o k f e processes u fine readable named = record {
    frames = refl;
    current = refl;
    counter = refl;
    queue = refl;
    swap_sized = sized;
    alike = λ i. record { owner = refl; virtual = refl; physical = refl; valid = refl };
    pages = λ o' k' e' found. elim (Bool-cases (eqb_ℤ o o' && eqb_ℤ k k')) [
      | inl here ↦ (f e, u.pages o' k' ∙ rw here refl)
      | inr there ↦ (e', u.pages o' k' ∙ rw there found)
    ];
    readable = λ o' k' e' found. elim (Bool-cases (eqb_ℤ o o' && eqb_ℤ k k')) [
      | inl here ↦ ground (arith, u.pages o' k', here, found, fine)
      | inr there ↦ readable o' k' e' (sym (u.pages o' k' ∙ rw there refl) ∙ found)
    ];
    named = λ o' p' found. let (p, before, same) = u.kept o' p' found in same ∙ named o' p before;
  }

-- What a step that gives a value gives.
abbrev pub Gives : Option Vm → (Vm → Type 0) → Type 0
Gives o P = (vm : Vm) × (o ≡ some vm) × P vm

pub dropped-Gentle :
    (vm : Vm) (v : ℕ) (tlb : ℕ → TranslationEntry) (dirty : Bool)
    → IsSound vm
    → Gentle vm (dropped v vm (tlb, dirty))
dropped-Gentle vm v tlb dirty h = record {
  frames = refl;
  current = refl;
  counter = refl;
  queue = refl;
  swap_sized = h.swap_sized;
  alike = λ i. with_dirty-Alike v dirty vm.ipt i;
  pages = λ o k e found. (e, found);
  readable = h.readable;
  named = h.named;
}

-- The frame's entry after some steps still names a page of its owner.
pub Placed-still :
    (vm vm' : Vm) (v : ℕ)
    → Gentle vm vm'
    → Placed vm.processes (vm.ipt v)
    → Placed vm'.processes (vm'.ipt v)
Placed-still vm vm' v g (e, found) =
    let a = g.alike v in
    let (e', found') = g.pages _ _ e found in
    (
      e',
      ap (λ o. page vm'.processes o (vm'.ipt v).entry.virtual_page) a.owner
          ∙ (ap (λ k. page vm'.processes (vm.ipt v).space_owner k) a.virtual ∙ found'),
    )

module _ (vm : Vm) (v : ℕ) where
  save_at-Gives :
      (vm' : Vm)
      → Gentle vm vm'
      → Placed vm.processes (vm.ipt v)
      → 0 < num_clear vm'.swap_map
      → Gives (save_at v vm' (find vm'.swap_map)) (λ s. Gentle vm s × (s.tlb ≡ vm'.tlb))
  save_at-Gives vm' g placed room =
      let (l, t) = find_takes vm'.swap_map g.swap_sized room in
      let (e, found) = Placed-still vm vm' v g placed in
      let (processes, u) = updates (swapped_out l) _ _ e vm'.processes found in
      let marked = mark_bit-IsSized vm'.swap_map l g.swap_sized in
      let file = write_page vm'.swapfile vm'.memory (v * 128) (128 * l) in
      (
        record vm' { swap_map = mark_bit vm'.swap_map l; swapfile = file; processes = processes },
        rw t.result (rw u.result refl),
        (
          Gentle-trans vm vm' _ g (
              Updated-Gentle vm' (mark_bit vm'.swap_map l) file marked _ _ (swapped_out l) e
                processes u refl g.readable g.named),
          refl,
        ),
      )

  save_frame-Gives :
      (vm' : Vm)
      → Gentle vm vm'
      → Placed vm.processes (vm.ipt v)
      → 0 < num_clear vm'.swap_map
      → Gives (save_frame v vm') (λ s. Gentle vm s × (s.tlb ≡ vm'.tlb))
  unfolding save_frame
  save_frame-Gives vm' g placed room = elim (Bool-cases (vm'.ipt v).entry.dirty) [
    | inl dirty ↦ rw dirty (save_at-Gives vm' g placed room)
    | inr clean ↦ rw clean (vm', refl, (g, refl))
  ]

  forget_page-Gives :
      (vm' : Vm)
      → Gentle vm vm'
      → Placed vm.processes (vm.ipt v)
      → (s : Vm) × (forget_page v vm' ≡ some (s, v)) × Gentle vm s × (s.tlb ≡ vm'.tlb)
  forget_page-Gives vm' g placed =
      let (e, found) = Placed-still vm vm' v g placed in
      let (processes, u) = updates absent _ _ e vm'.processes found in
      (
        record vm' { processes = processes },
        rw u.result refl,
        Gentle-trans vm vm' _ g (
            Updated-Gentle vm' vm'.swap_map vm'.swapfile g.swap_sized _ _ absent e processes u
              (g.readable _ _ e found) g.readable g.named),
        refl,
      )

module _ (vm : Vm) (v : ℕ) (h : IsSound vm) (below : v < 32) (p : Process)
    (owner : eqb_ℤ (vm.ipt v).space_owner p.space_id ≡ true) where
  abbrev after_drop : (ℕ → TranslationEntry) × Bool
  after_drop =
      drop_page 4 0 (vm.ipt v).entry.virtual_page (eqb_ℤ (vm.ipt v).space_owner p.space_id) vm.tlb
        (vm.ipt v).entry.dirty

  -- No entry of the TLB is left for the frame.
  kept-Mapped :
      (j : ℕ)
      → j < 4
      → (after_drop.0 j).valid ≡ true
      → (m : Mapped 32 vm (after_drop.0 j)) × (m.frame ≢ v)
  kept-Mapped j lt valid =
      let s =
        drop_page-Survives (vm.ipt v).entry.virtual_page (eqb_ℤ (vm.ipt v).space_owner p.space_id) j
          4 0 vm.tlb (vm.ipt v).entry.dirty valid in
      let was_valid : (vm.tlb j).valid ≡ true =
        ap (λ (e : TranslationEntry). e.valid) (sym s.same) ∙ valid in
      let m = h.coherent j lt was_valid in
      let m' = subst (λ e. Mapped 32 vm e) (sym s.same) m in
      (
        m',
        λ eq.
            let page_eq : (vm.ipt v).entry.virtual_page ≡ (vm.tlb j).virtual_page =
              ap (λ f. (vm.ipt f).entry.virtual_page) (sym eq)
              ∙ (m'.same_page ∙ ap (λ (e : TranslationEntry). e.virtual_page) s.same) in
            absurd (
              ground (
                arith,
                s.other (omega arith) (omega arith) owner,
                (eqb_ℤ_iff (vm.tlb j).virtual_page (vm.ipt v).entry.virtual_page).1 (sym page_eq),
              )),
      )

  misses_kept : (vpn : ℕ) → find_tlb 4 0 vpn vm.tlb ≡ none → find_tlb 4 0 vpn after_drop.0 ≡ none
  misses_kept vpn = find_tlb-fewer 4 0 vpn vm.tlb after_drop.0 λ j miss.
      elim (Bool-cases (after_drop.0 j).valid) [
        | inl valid ↦
            let s =
              drop_page-Survives (vm.ipt v).entry.virtual_page
                (eqb_ℤ (vm.ipt v).space_owner p.space_id) j 4 0 vm.tlb (vm.ipt v).entry.dirty
                valid in
            ap (hits vpn) s.same ∙ miss
        | inr invalid ↦ rw invalid refl
      ]

-- With a valid frame and room in the swap file an eviction succeeds.
pub evict-Stepped :
    (vm : Vm) (v : ℕ)
    → IsSound vm
    → v < 32
    → (vm.ipt v).entry.valid ≡ true
    → 0 < num_clear vm.swap_map
    → (vm' : Vm) × (evict v vm ≡ some (vm', v)) × Stepped v vm vm'
unfolding evict
evict-Stepped vm v h below valid room =
    let placed = h.placed v below (omega arith) valid in
    let (p, hp) =
      page_of-process (vm.ipt v).entry.virtual_page placed.0
        (process_at vm.processes (vm.ipt v).space_owner) placed.1 in
    let owner = own_id vm.processes (vm.ipt v).space_owner p hp h.named in
    let (tlb, dirty) = after_drop vm v h below p owner in
    let (s, es, (g1, t1)) =
      save_frame-Gives vm v (dropped v vm (tlb, dirty)) (dropped-Gentle vm v tlb dirty h) placed
        room in
    let (f, ef, g2, t2) = forget_page-Gives vm v s g1 placed in
    let same : f.tlb ≡ tlb = t2 ∙ t1 in
    (
      f,
      rw hp (rw es (rw ef refl)),
      Gentle-Stepped vm f h g2 v
          (λ lt. ap (λ b. test_bit b v) g2.frames ∙ (h.marked v below (omega arith) ∙ valid))
          (subst
            (λ tlb.
              (j : ℕ) → j < 4 → (tlb j).valid ≡ true → (m : Mapped 32 vm (tlb j)) × (m.frame ≢ v))
            (sym same) (kept-Mapped vm v h below p owner))
          (subst (λ tlb. (vpn : ℕ) → find_tlb 4 0 vpn vm.tlb ≡ none → find_tlb 4 0 vpn tlb ≡ none)
            (sym same) (misses_kept vm v h below p owner)),
    )
