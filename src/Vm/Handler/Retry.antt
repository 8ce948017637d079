-- ===== src/Vm/Handler/Retry.antt =====
-- The instruction that faulted, run again after the handler.
use cs350project.Prelude.{
  ℕ, ◌+◌, ◌*◌, ◌/◌, ◌%◌, ◌^◌, ◌<◌, ◌≡◌, refl, sym, ◌∙◌, ap, arith, Bool, true, false, ℤ, pos,
  Option, none, some, Bool-cases, inl, inr,
}
use cs350project.Bitmap.{num_clear}
use cs350project.Vm.Machine.{
  TranslationEntry, Machine, with_entry, touched, find_tlb, unsigned, misaligned, check_entry,
  conclude, by_tlb, translate, Translated, translated, raised, ExceptionType,
}
use cs350project.Vm.Machine.Access.{is_size}
use cs350project.Vm.Paging.{ExtendedTranslationEntry, Vm, machine, page}
use cs350project.Vm.Handler.{handle_page_fault}
use cs350project.Vm.Handler.Invariant.{IsSound}
use cs350project.Vm.Handler.Enter.{Resident}
use cs350project.Vm.Handler.Fault.{Served, handle_page_fault-Served}

-- A page fault is raised by a miss of the TLB alone.
conclude-raised :
    (writing : Bool) (offset size : ℕ) (e : TranslationEntry) (m m' m1 : Machine)
    → conclude (check_entry writing offset size e) m m' ≡ some (m1, raised ExceptionType.page_fault)
    → ⊥
unfolding check_entry
conclude-raised writing offset size e m m' m1 h = ground (arith, h)

by_tlb-raised :
    (u size : ℕ) (tlb : ℕ → TranslationEntry) (m m1 : Machine) (o : Option ℕ)
    → by_tlb false (u % 128) size tlb m o ≡ some (m1, raised ExceptionType.page_fault)
    → o ≡ none
by_tlb-raised u size tlb m m1 none h = refl
by_tlb-raised u size tlb m m1 (some i) h =
    absurd (conclude-raised false (u % 128) size (tlb i) m _ m1 h)

translate-raised :
    (addr : ℤ) (size : ℕ) (vm : Vm) (m1 : Machine)
    → translate addr size false (machine vm) ≡ some (m1, raised ExceptionType.page_fault)
    → (misaligned size addr ≡ false) × (find_tlb 4 0 (unsigned addr / 128) vm.tlb ≡ none)
unfolding translate
translate-raised addr size vm m1 h = elim (Bool-cases (misaligned size addr)) [
  | inl odd ↦ absurd (ground (arith, odd, h))
  | inr even ↦ (even, by_tlb-raised (unsigned addr) size vm.tlb (machine vm) m1 _ (rw even at h))
]

-- What a translation says.
abbrev pub answer : Option (Machine × Translated) → Option Translated
answer none = none
answer (some (m, r)) = some r

check_entry-lands :
    (n size f : ℕ) (e : TranslationEntry)
    → is_size size ≡ true
    → misaligned size (pos n) ≡ false
    → n < 2 ^ 31
    → f < 32
    → e.physical_page ≡ pos f
    → check_entry false (n % 128) size e ≡ some (translated (f * 128 + n % 128))
unfolding check_entry misaligned unsigned
check_entry-lands n size f e sized even small below physical = ground (arith, physical)

unsigned_small : (n : ℕ) → n < 2 ^ 31 → unsigned (pos n) ≡ n
unfolding unsigned
unsigned_small n h = omega arith

Served-translate :
    (n size : ℕ) (vm vm' : Vm) (s : Served (n / 128) vm vm')
    → is_size size ≡ true
    → misaligned size (pos n) ≡ false
    → n < 2 ^ 31
    → answer (translate (pos n) size false (machine vm'))
      ≡ some (translated (s.frame * 128 + n % 128))
unfolding translate
Served-translate n size vm vm' s sized even small =
    let e = vm'.tlb s.slot in
    let r = s.here in
    let physical : e.physical_page ≡ pos s.frame =
      ap (λ (e : TranslationEntry). e.physical_page) s.loads ∙ r.physical in
    let lands = check_entry-lands n size s.frame e sized even small r.below physical in
    let m' : Machine = record (machine vm') {
      tlb = some (with_entry vm'.tlb s.slot (touched false e));
    } in
    rw (even, unsigned_small n small)
      (ap (λ o. answer (by_tlb false (n % 128) size vm'.tlb (machine vm') o)) s.found
        ∙ ap (λ c. answer (conclude c (machine vm') m')) lands)

-- After a page fault on an aligned read of a page of the running process, in a sound state with room in
-- the swap file, `HandlePageFault` succeeds, in whatever way a victim is chosen: the state is sound
-- again, a frame is entered for the page and the process in the inverted page table, and the read,
-- when it is tried again, is translated to its offset in that frame.
pub page_fault_resolved :
    (rand n size : ℕ) (vm : Vm) (m : Machine) (e : ExtendedTranslationEntry)
    → IsSound vm
    → 0 < num_clear vm.swap_map
    → n < 2 ^ 31
    → is_size size ≡ true
    → page vm.processes (pos vm.current) (pos (n / 128)) ≡ some e
    → translate (pos n) size false (machine vm) ≡ some (m, raised ExceptionType.page_fault)
    → (vm' : Vm) × (handle_page_fault rand (pos n) vm ≡ some vm')
      × IsSound vm'
      × (f : ℕ) × Resident (pos (n / 128)) f vm'
      × (answer (translate (pos n) size false (machine vm'))
          ≡ some (translated (f * 128 + n % 128)))
page_fault_resolved rand n size vm m e h room small sized found faulted =
    let (even, miss) = translate-raised (pos n) size vm m faulted in
    let miss' : find_tlb 4 0 (n / 128) vm.tlb ≡ none =
      ap (λ u. find_tlb 4 0 (u / 128) vm.tlb) (sym (unsigned_small n small)) ∙ miss in
    let (vm', done, s) = handle_page_fault-Served rand n vm e h room small found miss' in
    (vm', done, s.sound, s.frame, s.here, Served-translate n size vm vm' s sized even small)
