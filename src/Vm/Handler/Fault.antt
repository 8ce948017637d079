-- ===== src/Vm/Handler/Fault.antt =====
-- `HandlePageFault` as a whole: the page is found again by the translation.
use cs350project.Prelude.{
  ℕ, zero, suc, ◌+◌, ◌/◌, ◌%◌, ◌^◌, ◌<◌, ◌≡◌, ◌≢◌, refl, sym, ◌∙◌, ap, arith, ◌==◌, ◌&&◌, Bool,
  true, ℤ, pos, negsuc, ◌+ℤ◌, eqb_ℤ, eqb_ℤ_iff, Option, none, some, Bool-cases, inl, inr, and_then,
  subst,
}
use cs350project.Bitmap.{num_clear}
use cs350project.Vm.Machine.{with_entry, find_tlb, unsigned}
use cs350project.Vm.Machine.Find.{hits, find_tlb-with_entry}
use cs350project.Vm.Paging.{ExtendedTranslationEntry, IptEntry, Vm, page}
use cs350project.Vm.Handler.{
  find_ipt, frame_for, slot_of, set_dirty, write_back, with_dirty, load_tlb, handle_page_fault,
}
use cs350project.Vm.Handler.Invariant.{
  Counts, IsSound, Mapped, Alike, with_dirty-Alike, Gentle, Gentle-Stepped,
}
use cs350project.Vm.Handler.Fill.{Mapped-again}
use cs350project.Vm.Handler.Enter.{Resident, Ready, handle_ipt_miss-Ready}

-- A page that the inverted page table has.
find_ipt-some :
    (n i : ℕ) (k : ℤ) (owner f : ℕ) (ipt : ℕ → IptEntry)
    → find_ipt n i k owner ipt ≡ some f
    → (f < i + n)
      × ((ipt f).entry.valid ≡ true)
      × ((ipt f).entry.virtual_page ≡ k)
      × ((ipt f).space_owner ≡ pos owner)
unfolding find_ipt
find_ipt-some zero i k owner f ipt h = absurd (cc)
find_ipt-some (suc n) i k owner f ipt h =
    elim (Bool-cases (
      eqb_ℤ (ipt i).entry.virtual_page k
      && (eqb_ℤ (ipt i).space_owner (pos owner) && (ipt i).entry.valid))) [
        | inl here ↦
            let e : i ≡ f = ground (arith, rw here at h) in
            let valid : (ipt i).entry.valid ≡ true = ground (arith, here) in
            let virtual : eqb_ℤ (ipt i).entry.virtual_page k ≡ true = ground (arith, here) in
            let owned : eqb_ℤ (ipt i).space_owner (pos owner) ≡ true = ground (arith, here) in
            (
              omega (arith, e),
              ap (λ j. (ipt j).entry.valid) (sym e) ∙ valid,
              ap (λ j. (ipt j).entry.virtual_page) (sym e)
                  ∙ (eqb_ℤ_iff (ipt i).entry.virtual_page k).0 virtual,
              ap (λ j. (ipt j).space_owner) (sym e)
                  ∙ (eqb_ℤ_iff (ipt i).space_owner (pos owner)).0 owned,
            )
        | inr there ↦
            let (lt, valid, virtual, owned) =
              find_ipt-some n (i + 1) k owner f ipt (rw there at h) in
            (omega arith, valid, virtual, owned)
      ]

frame_for-Ready :
    (rand : ℕ) (k : ℤ) (vm : Vm) (e : ExtendedTranslationEntry) (o : Option ℕ)
    → IsSound vm
    → 0 < num_clear vm.swap_map
    → page vm.processes (pos vm.current) k ≡ some e
    → find_ipt 32 0 k vm.current vm.ipt ≡ o
    → (vm' : Vm) × (ppn : ℕ) × (frame_for rand k vm o ≡ some (vm', ppn)) × Ready k ppn vm vm'
frame_for-Ready rand k vm e none h room found miss = handle_ipt_miss-Ready rand k vm e h room found
frame_for-Ready rand k vm e (some f) h room found hit =
    let (lt, valid, virtual, owned) = find_ipt-some 32 0 k vm.current f vm.ipt hit in
    let below : f < 32 = omega arith in
    (
      vm,
      f,
      refl,
      record {
        sound = h;
        here = record {
          below = below;
          valid = valid;
          virtual = virtual;
          physical = h.at_home f below (omega arith) valid;
          owned = owned;
        };
        current = refl;
        counter = refl;
        misses = λ vpn m. m;
      },
    )

-- The dirty bit of a TLB entry goes to the frame that the entry leads to.
dirtied-Gentle :
    (vm : Vm) (f : ℕ) (d : Bool)
    → IsSound vm
    → Gentle vm (record vm { ipt = with_entry vm.ipt f (with_dirty d (vm.ipt f)) })
dirtied-Gentle vm f d h = record {
  frames = refl;
  current = refl;
  counter = refl;
  queue = refl;
  swap_sized = h.swap_sized;
  alike = λ i. with_dirty-Alike f d vm.ipt i;
  pages = λ o k e found. (e, found);
  readable = h.readable;
  named = h.named;
}

unchanged-Gentle : (vm : Vm) → IsSound vm → Gentle vm vm
unchanged-Gentle vm h = record {
  frames = refl;
  current = refl;
  counter = refl;
  queue = refl;
  swap_sized = h.swap_sized;
  alike = λ i. record { owner = refl; virtual = refl; physical = refl; valid = refl };
  pages = λ o k e found. (e, found);
  readable = h.readable;
  named = h.named;
}

pub write_back-Gentle :
    (vm : Vm) (slot : ℕ)
    → IsSound vm
    → slot < 4
    → (vm' : Vm) × (write_back (vm.tlb slot) vm ≡ some vm') × Gentle vm vm' × (vm'.tlb ≡ vm.tlb)
unfolding write_back
write_back-Gentle vm slot h lt = elim (Bool-cases (vm.tlb slot).valid) [
  | inl valid ↦
      let m = h.coherent slot lt valid in
      let f = m.frame in
      let d = (vm.tlb slot).dirty in
      let went : set_dirty (vm.tlb slot).physical_page d vm
          ≡ some (record vm { ipt = with_entry vm.ipt f (with_dirty d (vm.ipt f)) }) =
        ap (λ p. set_dirty p d vm) m.physical ∙ ground (arith, m.below) in
      (
        record vm { ipt = with_entry vm.ipt f (with_dirty d (vm.ipt f)) },
        ground (arith, valid, went),
        dirtied-Gentle vm f d h,
        refl,
      )
  | inr invalid ↦ (vm, ground (arith, invalid), unchanged-Gentle vm h, refl)
]

-- The frame's entry goes into the slot.
module _ (k : ℤ) (ppn slot : ℕ) (vm : Vm) (h : IsSound vm) (r : Resident k ppn vm) where
  abbrev loaded : Vm
  loaded = record vm { tlb = with_entry vm.tlb slot (vm.ipt ppn).entry }

  loaded-IsSound : IsSound loaded
  loaded-IsSound = record {
    size = h.size;
    sized = h.sized;
    swap_sized = h.swap_sized;
    marked = h.marked;
    own = h.own;
    at_home = h.at_home;
    placed = h.placed;
    coherent = λ j lt v. elim (Bool-cases (slot == j)) [
      | inl same ↦ rw same (record {
        frame = ppn;
        physical = r.physical;
        below = r.below;
        apart = λ e. absurd (omega (arith, e, r.below));
        taken = r.valid;
        same_page = refl;
        owned = r.owned;
      })
      | inr other ↦
          let m = h.coherent j lt (rw other at v) in
          rw other (Mapped-again 32 32 vm loaded (vm.tlb j) m m.apart refl refl)
    ];
    queued = h.queued;
    counted = h.counted;
    readable = h.readable;
    named = h.named;
  }

  loaded-Resident : Resident k ppn loaded
  loaded-Resident = record {
    below = r.below;
    valid = r.valid;
    virtual = r.virtual;
    physical = r.physical;
    owned = r.owned;
  }

Resident-Alike :
    (k : ℤ) (ppn : ℕ) (vm vm' : Vm)
    → Alike (vm.ipt ppn) (vm'.ipt ppn)
    → vm'.current ≡ vm.current
    → Resident k ppn vm
    → Resident k ppn vm'
Resident-Alike k ppn vm vm' a cur r = record {
  below = r.below;
  valid = a.valid ∙ r.valid;
  virtual = a.virtual ∙ r.virtual;
  physical = a.physical ∙ r.physical;
  owned = a.owner ∙ (r.owned ∙ ap pos (sym cur));
}

-- What a served fault leaves for the page of number `n`.
pub record Served (n : ℕ) (vm vm' : Vm) : Type 0 where
  pub frame : ℕ
  pub sound : IsSound vm'
  pub here : Resident (pos n) frame vm'
  pub slot : ℕ
  pub found : find_tlb 4 0 n vm'.tlb ≡ some slot
  pub loads : vm'.tlb slot ≡ (vm'.ipt frame).entry

load_tlb-some :
    (ppn c : ℕ) (vm vm' : Vm)
    → vm.tlb_counter ≡ pos c
    → write_back (vm.tlb (c % 4)) vm ≡ some vm'
    → load_tlb (vm, ppn)
      ≡ some (record vm' { tlb = with_entry vm'.tlb (c % 4) (vm'.ipt ppn).entry })
load_tlb-some ppn c vm vm' counter wrote =
    let fill = λ (slot : ℕ) (vm' : Vm).
      some (record vm' { tlb = with_entry vm'.tlb slot (vm'.ipt ppn).entry }) in
    ap (λ n. and_then (slot_of n) λ slot. and_then (write_back (vm.tlb slot) vm) (fill slot))
      counter
    ∙ ap (λ o. and_then o (fill (c % 4))) wrote

load_tlb-Served :
    (n ppn c : ℕ) (vm vm1 : Vm)
    → n < 2 ^ 32
    → Ready (pos n) ppn vm vm1
    → vm1.tlb_counter ≡ pos c
    → find_tlb 4 0 n vm.tlb ≡ none
    → (vm' : Vm) × (load_tlb (vm1, ppn) ≡ some vm') × Served n vm vm'
unfolding unsigned
load_tlb-Served n ppn c vm vm1 small r counter miss =
    let slot = c % 4 in
    let lt : slot < 4 = omega arith in
    let (vm2, wrote, g, same) = write_back-Gentle vm1 slot r.sound lt in
    let miss1 = r.misses n miss in
    let miss2 : find_tlb 4 0 n vm2.tlb ≡ none = ap (find_tlb 4 0 n) same ∙ miss1 in
    let s2 =
      Gentle-Stepped vm1 vm2 r.sound g 32 (λ l. absurd (omega arith))
        (subst
          (λ tlb.
            (j : ℕ) → j < 4 → (tlb j).valid ≡ true → (m : Mapped 32 vm1 (tlb j)) × (m.frame ≢ 32))
          (sym same) λ j l v. let m = r.sound.coherent j l v in (m, m.apart))
        (λ vpn m. ap (find_tlb 4 0 vpn) same ∙ m) in
    let here = Resident-Alike (pos n) ppn vm1 vm2 (g.alike ppn) g.current r.here in
    let hit : hits n (vm2.ipt ppn).entry ≡ true = ground (arith, here.valid, here.virtual, small) in
    let self : (slot == slot) ≡ true = ground arith in
    (
      loaded (pos n) ppn slot vm2 s2.holds here,
      load_tlb-some ppn c vm1 vm2 counter wrote,
      record {
        frame = ppn;
        sound = loaded-IsSound (pos n) ppn slot vm2 s2.holds here;
        here = loaded-Resident (pos n) ppn slot vm2 s2.holds here;
        slot = slot;
        found =
            find_tlb-with_entry 4 0 n slot (vm2.ipt ppn).entry vm2.tlb miss2 hit (omega arith)
              (omega arith);
        loads = rw self refl;
      },
    )

next_counter : (c : ℤ) → Counts c → (n : ℕ) × (c +ℤ pos 1 ≡ pos n)
next_counter (pos n) h = (n + 1, ground arith)
next_counter (negsuc n) h = (0, ground (arith, h))

counted_once : (vm : Vm) (n : ℕ) → IsSound vm → IsSound (record vm { tlb_counter = pos n })
counted_once vm n h = record {
  size = h.size;
  sized = h.sized;
  swap_sized = h.swap_sized;
  marked = h.marked;
  own = h.own;
  at_home = h.at_home;
  placed = h.placed;
  coherent = λ j lt v.
      let m = h.coherent j lt v in
      Mapped-again 32 32 vm (record vm { tlb_counter = pos n }) (vm.tlb j) m m.apart refl refl;
  queued = h.queued;
  counted = tt;
  readable = h.readable;
  named = h.named;
}

pub handle_page_fault-Served :
    (rand n : ℕ) (vm : Vm) (e : ExtendedTranslationEntry)
    → IsSound vm
    → 0 < num_clear vm.swap_map
    → n < 2 ^ 31
    → page vm.processes (pos vm.current) (pos (n / 128)) ≡ some e
    → find_tlb 4 0 (n / 128) vm.tlb ≡ none
    → (vm' : Vm) × (handle_page_fault rand (pos n) vm ≡ some vm') × Served (n / 128) vm vm'
unfolding handle_page_fault
handle_page_fault-Served rand n vm e h room small found miss =
    let (c, next) = next_counter vm.tlb_counter h.counted in
    let vm0 : Vm = record vm { tlb_counter = pos c } in
    let h0 = counted_once vm c h in
    let o = find_ipt 32 0 (pos (n / 128)) vm.current vm.ipt in
    let (vm1, ppn, went, r) = frame_for-Ready rand (pos (n / 128)) vm0 e o h0 room found refl in
    let (vm', done, s) = load_tlb-Served (n / 128) ppn c vm0 vm1 (omega arith) r (r.counter) miss in
    (
      vm',
      ap (λ t. and_then (frame_for rand (pos (n / 128)) (record vm { tlb_counter = t }) o) load_tlb)
            next
          ∙ (ap (λ q. and_then q load_tlb) went ∙ done),
      record {
        frame = s.frame;
        sound = s.sound;
        here = s.here;
        slot = s.slot;
        found = s.found;
        loads = s.loads;
      },
    )
