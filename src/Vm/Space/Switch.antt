-- ===== src/Vm/Space/Switch.antt =====
-- A context switch: no translation of the old process is left, and the state is sound for the new one.
use cs350project.Prelude.{
  ℕ, zero, suc, ◌+◌, ◌<◌, ◌≡◌, ◌≢◌, refl, sym, ◌∙◌, ap, arith, ◌==◌, true, false, none, some,
  Bool-cases, inl, inr, and_then, subst,
}
use cs350project.Vm.Machine.{TranslationEntry, find_tlb}
use cs350project.Vm.Paging.{Vm}
use cs350project.Vm.Handler.Invariant.{IsSound, Mapped, Gentle, Gentle-Stepped}
use cs350project.Vm.Handler.Fault.{write_back-Gentle}
use cs350project.Vm.Handler.Fill.{Mapped-again}
use cs350project.Vm.Space.{flush_at, flush_from, save_state, restore_state, switch_to}

-- The entries below `i` are invalid.
abbrev Flushed : ℕ → Vm → Type 0
Flushed i vm = (j : ℕ) → j < i → (vm.tlb j).valid ≡ false

flush_at-IsSound : (i : ℕ) (vm : Vm) → IsSound vm → IsSound (flush_at i vm)
flush_at-IsSound i vm h = record {
  size = h.size;
  sized = h.sized;
  swap_sized = h.swap_sized;
  marked = h.marked;
  own = h.own;
  at_home = h.at_home;
  placed = h.placed;
  coherent = λ j lt v. elim (Bool-cases (i == j)) [
    | inl same ↦ absurd (ground (arith, same, v))
    | inr other ↦
        let m = h.coherent j lt (rw other at v) in
        rw other (Mapped-again 32 32 vm (flush_at i vm) (vm.tlb j) m m.apart refl refl)
  ];
  queued = h.queued;
  counted = h.counted;
  readable = h.readable;
  named = h.named;
}

written_back-IsSound : (vm vm' : Vm) → IsSound vm → Gentle vm vm' → vm'.tlb ≡ vm.tlb → IsSound vm'
written_back-IsSound vm vm' h g same =
    let s =
      Gentle-Stepped vm vm' h g 32 (λ l. absurd (omega arith))
        (subst
          (λ tlb.
            (j : ℕ) → j < 4 → (tlb j).valid ≡ true → (m : Mapped 32 vm (tlb j)) × (m.frame ≢ 32))
          (sym same) λ j l v. let m = h.coherent j l v in (m, m.apart))
        (λ vpn m. ap (find_tlb 4 0 vpn) same ∙ m) in
    s.holds

flush_from-IsSound :
    (n i : ℕ) (vm : Vm)
    → i + n ≡ 4
    → IsSound vm
    → Flushed i vm
    → (vm' : Vm) × (flush_from n i vm ≡ some vm') × IsSound vm' × Flushed 4 vm'
unfolding flush_from
flush_from-IsSound zero i vm e h flushed = (vm, refl, h, λ j lt. flushed j (omega arith))
flush_from-IsSound (suc n) i vm e h flushed =
    let (vm1, wrote, g, same) = write_back-Gentle vm i h (omega arith) in
    let h1 = written_back-IsSound vm vm1 h g same in
    let flushed' : Flushed (i + 1) (flush_at i vm1) = λ j lt. elim (Bool-cases (i == j)) [
      | inl here ↦ rw here refl
      | inr there ↦ rw there (ap (λ t. (t j).valid) same ∙ flushed j (ground (arith, there)))
    ] in
    let (vm', went, h', all) =
      flush_from-IsSound n (i + 1) (flush_at i vm1) (omega arith) (flush_at-IsSound i vm1 h1)
        flushed' in
    (vm', ap (λ q. and_then q λ v. flush_from n (i + 1) (flush_at i v)) wrote ∙ went, h', all)

all_miss :
    (n i vpn : ℕ) (tlb : ℕ → TranslationEntry)
    → ((j : ℕ) → j < i + n → (tlb j).valid ≡ false)
    → find_tlb n i vpn tlb ≡ none
unfolding find_tlb
all_miss zero i vpn tlb h = refl
all_miss (suc n) i vpn tlb h =
    rw (h i (omega arith)) (all_miss n (i + 1) vpn tlb λ j lt. h j (omega arith))

-- With no valid TLB entry any process may run.
Flushed-current :
    (vm : Vm) (c : ℕ) → IsSound vm → Flushed 4 vm → IsSound (record vm { current = c })
Flushed-current vm c h flushed = record {
  size = h.size;
  sized = h.sized;
  swap_sized = h.swap_sized;
  marked = h.marked;
  own = h.own;
  at_home = h.at_home;
  placed = h.placed;
  coherent = λ j lt v. absurd (ground (arith, v, flushed j lt));
  queued = h.queued;
  counted = h.counted;
  readable = h.readable;
  named = h.named;
}

-- A context switch from a sound state succeeds: the state is sound for the process that runs next, and
-- the TLB finds no page, so that no translation of the old process serves the new one.
pub switch_to-IsSound :
    (next : ℕ) (vm : Vm)
    → IsSound vm
    → (vm' : Vm) × (switch_to next vm ≡ some vm')
      × IsSound vm'
      × ((vpn : ℕ) → find_tlb 4 0 vpn vm'.tlb ≡ none)
unfolding switch_to save_state restore_state
switch_to-IsSound next vm h =
    let (vm1, saved, h1, all1) = flush_from-IsSound 4 0 vm refl h λ j lt. absurd (omega arith) in
    let h2 = Flushed-current vm1 next h1 all1 in
    let (vm', went, h', all) =
      flush_from-IsSound 4 0 (record vm1 { current = next }) refl h2 λ j lt. absurd (omega arith) in
    (
      vm',
      ap (λ q. and_then q λ v. flush_from 4 0 (record v { current = next })) saved ∙ went,
      h',
      λ vpn. all_miss 4 0 vpn vm'.tlb all,
    )
