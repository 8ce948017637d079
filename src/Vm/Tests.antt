-- ===== src/Vm/Tests.antt =====
-- The theorems of virtual memory at a process with one page.
use cs350project.Prelude.{
  ℕ, zero, suc, ◌+◌, ◌*◌, ◌<◌, ◌≡◌, refl, subst, ◌∙◌, arith, ◌==◌, true, false, if◌then◌else◌, ℤ,
  pos, negsuc, minus_one, Option, none, some, List, [], ◌∷◌, get_elem?, replicate, length-replicate,
  inl, inr, Bool-cases,
}
use cs350project.Bitmap.{
  BitMap, new_bitmap, mark_bit, clear_bit, clear_from, test_bit, num_clear, clear, div_round_up,
}
use cs350project.Bitmap.Laws.{IsSized, test_bit-mark_bit, mark_bit-IsSized}
use cs350project.Bitmap.Search.{num_clear-new_bitmap}
use cs350project.Bitmap.Fresh.{new_bitmap-IsFresh}
use cs350project.Vm.Machine.{
  TranslationEntry, Machine, Outcome, translate, misaligned, unsigned, find_tlb, check_entry,
  read_mem, write_mem, store, write_bytes, signed, translated, raised, ExceptionType, ok,
}
use cs350project.Vm.Machine.Access.{Concludes, translate_lands}
use cs350project.Vm.Machine.Again.{value_read, read_mem-write_mem}
use cs350project.Vm.Paging.{
  executable, neither, ExtendedTranslationEntry, Process, File, Vm, machine, page,
}
use cs350project.Vm.Handler.{handle_page_fault, evict, write_back}
use cs350project.Vm.Handler.Invariant.{is_readable, IsSound}
use cs350project.Vm.Handler.Enter.{Resident}
use cs350project.Vm.Handler.Retry.{answer, page_fault_resolved}
use cs350project.Vm.Handler.Swap.{Saved, evicted_page_returns}
use cs350project.Vm.Space.{
  fresh_entry, new_page_table, new_stack, save_state, flush_from, switch_to, Stack, release_stack,
  delete_space, release_frames,
}
use cs350project.Vm.Space.Switch.{switch_to-IsSound}
use cs350project.Vm.Space.Dirty.{leads, save_state-dirty}
use cs350project.Vm.Space.Growth.{stack_top-reaches, new_page_table-covers, get-new_stack}
use cs350project.Vm.Space.Release.{release_stack_drops_tlb, delete_space_unsound}
use cs350project.Vm.Boot.{zero_entry, boot, boot-IsSound}

abbrev one_page : List ExtendedTranslationEntry
one_page = fresh_entry 0 minus_one minus_one neither ∷ []

abbrev processes : ℕ → Option Process
processes o =
    if o == 1
    then some (record {
      space_id = pos o;
      page_table = one_page;
      program = record { size = 0; bytes = λ a. 0 };
    })
    else none

processes-readable :
    (o k : ℤ) (e : ExtendedTranslationEntry) → page processes o k ≡ some e → is_readable e ≡ true
processes-readable (negsuc o) k e h = absurd (cc)
processes-readable (pos o) (pos zero) e h = ground (arith, h)
processes-readable (pos o) (pos (suc k)) e h = ground (arith, h)
processes-readable (pos o) (negsuc k) e h = ground (arith, h)

processes-named : (o : ℕ) (p : Process) → processes o ≡ some p → p.space_id ≡ pos o
processes-named o p h = ground (arith, h)

abbrev swapfile : File
swapfile = record { size = 0; bytes = λ a. 0 }

abbrev start : Vm
start = boot (0 ∷ []) (replicate 1000 0) (pos 9) true swapfile processes 1

start-IsSound : IsSound start
start-IsSound =
    boot-IsSound (0 ∷ []) (replicate 1000 0) (pos 9) true swapfile processes 1 refl
      (length-replicate {A = ℕ} 1000 0) processes-readable processes-named

swap_room : 0 < num_clear (new_bitmap (replicate 1000 0) 32000)
unfolding div_round_up
swap_room =
    omega (arith, num_clear-new_bitmap (replicate 1000 0) 32000 (length-replicate {A = ℕ} 1000 0))

start_room : 0 < num_clear start.swap_map
unfolding boot
start_room = swap_room

start_faults :
    translate (pos 4) 4 false (machine start)
    ≡ some (machine start, raised ExceptionType.page_fault)
unfolding boot translate misaligned unsigned find_tlb
start_faults = refl

start_page :
    page start.processes (pos start.current) (pos 0)
    ≡ some (fresh_entry 0 minus_one minus_one neither)
unfolding boot
start_page = refl

page_fault_resolved_example :
    (vm' : Vm) × (handle_page_fault 7 (pos 4) start ≡ some vm')
    × IsSound vm'
    × (f : ℕ) × Resident (pos 0) f vm'
    × (answer (translate (pos 4) 4 false (machine vm')) ≡ some (translated (f * 128 + 4)))
page_fault_resolved_example =
    page_fault_resolved 7 4 4 start (machine start) (fresh_entry 0 minus_one minus_one neither)
      start-IsSound start_room (omega arith) refl start_page start_faults

-- The page is in frame 0, with a dirty entry in the TLB.
abbrev used_entry : TranslationEntry
used_entry = record zero_entry { valid = true; dirty = true }

abbrev one_taken : BitMap
one_taken = record { num_bits = 32; num_words = 1; map = 1 ∷ [] }

first_taken : mark_bit (new_bitmap (0 ∷ []) 32) 0 ≡ one_taken
unfolding mark_bit new_bitmap clear_from clear_bit div_round_up
first_taken = refl

record IsTaken (b : BitMap) : Type 0 where
  sized : IsSized b
  bit : (j : ℕ) → j < 32 → test_bit b j ≡ (0 == j)

one_taken-IsTaken : IsTaken one_taken
unfolding div_round_up
one_taken-IsTaken =
    let b = new_bitmap (0 ∷ []) 32 in
    let f = new_bitmap-IsFresh (0 ∷ []) 32 refl in
    let inside : 0 < b.num_bits = omega (arith, f.size) in
    subst IsTaken first_taken (record {
      sized = mark_bit-IsSized b 0 f.sized;
      bit = λ j lt. ground (arith, test_bit-mark_bit b 0 j f.sized inside, f.clear j lt);
    })

abbrev used : Vm
used = record start {
  frames = one_taken;
  ipt = λ i. record { entry = if i == 0 then used_entry else zero_entry; space_owner = pos 1 };
  tlb = λ j. if j == 0 then used_entry else zero_entry;
}

used-IsSound : IsSound used
unfolding boot
used-IsSound =
    let t = one_taken-IsTaken in
    let s = start-IsSound in
    record {
      size = refl;
      sized = t.sized;
      swap_sized = s.swap_sized;
      marked = λ i lt ne. t.bit i lt ∙ ground arith;
      own = λ lt. absurd (omega arith);
      at_home = λ i lt ne v. ground (arith, v);
      placed = λ i lt ne v. elim (Bool-cases (i == 0)) [
        | inl here ↦ rw here (fresh_entry 0 minus_one minus_one neither, refl)
        | inr other ↦ absurd (ground (arith, other, v))
      ];
      coherent = λ j lt v. elim (Bool-cases (j == 0)) [
        | inl here ↦ rw here (record {
          frame = 0;
          physical = refl;
          below = omega arith;
          apart = λ e. absurd (omega (arith, e));
          taken = refl;
          same_page = refl;
          owned = refl;
        })
        | inr other ↦ absurd (ground (arith, other, v))
      ];
      queued = s.queued;
      counted = s.counted;
      readable = processes-readable;
      named = processes-named;
    }

evicted_page_returns_example : (vm' : Vm) × (evict 0 used ≡ some (vm', 0)) × Saved 0 used vm'
unfolding boot
evicted_page_returns_example =
    evicted_page_returns used 0 used-IsSound (omega arith) refl (inl refl) swap_room

switch_to-IsSound_example :
    (vm' : Vm) × (switch_to 2 used ≡ some vm')
    × IsSound vm'
    × ((vpn : ℕ) → find_tlb 4 0 vpn vm'.tlb ≡ none)
switch_to-IsSound_example = switch_to-IsSound 2 used used-IsSound

abbrev or_used : Option Vm → Vm
or_used none = used
or_used (some vm) = vm

saved_used : save_state used ≡ some (or_used (save_state used))
unfolding boot save_state flush_from write_back
saved_used = refl

only_dirty : (i : ℕ) → i < 4 → leads 0 (used.tlb i) ≡ true → (used.tlb i).dirty ≡ true
only_dirty i lt h = ground (arith, h)

save_state-dirty_example : ((or_used (save_state used)).ipt 0).entry.dirty ≡ true
save_state-dirty_example =
    save_state-dirty 0 0 used (or_used (save_state used)) saved_used (omega arith) refl only_dirty

-- A machine whose TLB maps page 2 to frame 3.
abbrev one_mapped : Machine
one_mapped = record (machine used) {
  tlb = some λ i. record used_entry { virtual_page = pos 2; physical_page = pos 3 };
}

translate_lands_example : Concludes (unsigned (pos 260)) 4 (translate (pos 260) 4 true one_mapped)
translate_lands_example = translate_lands (pos 260) 4 true one_mapped refl refl

abbrev written : Option (Machine × Outcome (Unit {0})) → Machine
written none = one_mapped
written (some (m, r)) = m

written-some :
    write_mem 5 (pos 260) 4 (negsuc 6) one_mapped
    ≡ some (written (write_mem 5 (pos 260) 4 (negsuc 6) one_mapped), ok tt)
unfolding boot write_mem translate misaligned unsigned find_tlb check_entry store write_bytes
written-some = refl

read_mem-write_mem_example :
    value_read (read_mem 6 (pos 260) 4 (written (write_mem 5 (pos 260) 4 (negsuc 6) one_mapped)))
    ≡ some (negsuc 6)
unfolding unsigned signed
read_mem-write_mem_example =
    read_mem-write_mem 5 6 4 (pos 260) (negsuc 6) one_mapped
      (written (write_mem 5 (pos 260) 4 (negsuc 6) one_mapped)) written-some

new_page_table-covers_example :
    (e : ExtendedTranslationEntry) × (get_elem? (new_page_table (λ i. pos 0) 300 50 10) 2 ≡ some e)
    × (is_readable e ≡ true)
    × (e.entry.virtual_page ≡ pos 2)
    × (310 < 350 → (e.disk_location ≡ executable) × (e.byte_offset ≡ pos 296))
new_page_table-covers_example =
    new_page_table-covers (λ i. pos 0) 300 50 10 310
      (omega (arith, stack_top-reaches 300 50 10 310 (omega arith)))

get-new_stack_example :
    get_elem? (new_stack one_page).0 1 ≡ some (fresh_entry 1 minus_one minus_one neither)
unfolding new_stack
get-new_stack_example = get-new_stack one_page 1

-- A thread with its stack from page 1 on, which is in frame 3.
abbrev stack : Stack
stack = record {
  frames = record { num_bits = 32; num_words = 1; map = 8 ∷ [] };
  tlb = λ j. used_entry;
  table = fresh_entry 0 minus_one minus_one neither ∷ fresh_entry 1 (pos 3) minus_one neither ∷ [];
}

abbrev or_stack : Option Stack → Stack
or_stack none = stack
or_stack (some s) = s

stack_released : release_stack 1 1 stack ≡ some (or_stack (release_stack 1 1 stack))
unfolding release_stack clear clear_bit
stack_released = refl

release_stack_drops_tlb_example : ((or_stack (release_stack 1 1 stack)).tlb 2).valid ≡ false
release_stack_drops_tlb_example =
    release_stack_drops_tlb 0 1 2 3 stack (or_stack (release_stack 1 1 stack))
      (fresh_entry 1 (pos 3) minus_one neither) refl refl (omega arith) (omega arith) stack_released

space_deleted : delete_space (pos 1) used ≡ some (or_used (delete_space (pos 1) used))
unfolding delete_space release_frames boot clear clear_bit
space_deleted = refl

delete_space_unsound_example :
    (test_bit (or_used (delete_space (pos 1) used)).frames 0 ≡ false)
    × (((or_used (delete_space (pos 1) used)).ipt 0).entry.valid ≡ true)
    × (IsSound (or_used (delete_space (pos 1) used)) → ⊥)
delete_space_unsound_example =
    delete_space_unsound 0 used (or_used (delete_space (pos 1) used)) used-IsSound (omega arith)
      refl space_deleted
