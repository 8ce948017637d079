-- ===== src/Vm/Handler.antt =====
-- The page fault handler of userprog/exception.cc: handleMemoryFull, handleIPTMiss, HandlePageFault.
pub mod Invariant
pub mod Evict
pub mod Fill
pub mod Enter
pub mod Fault
pub mod Retry
pub mod Swap
use cs350project.Prelude.{
  ℕ, zero, suc, ◌+◌, ◌*◌, ◌/◌, ◌%◌, ltb, ◌==◌, Bool, true, false, ◌&&◌, ◌||◌, if◌then◌else◌, ℤ, pos,
  negsuc, minus_one, ◌+ℤ◌, eqb_ℤ, Option, none, some, and_then,
}
use cs350project.Bitmap.{BitMap, find}
use cs350project.Threads.Queue.{ListElement, Queue, append, remove}
use cs350project.Vm.Machine.{TranslationEntry, with_entry, page_size, num_phys_pages, tlb_size}
use cs350project.Vm.Paging.{
  DiskLocation, swap, executable, neither, ExtendedTranslationEntry, File, IptEntry, Vm, read_page,
  write_page, process_at, page, update_page,
}

-- `(int)` of the pointer that `Remove` returns
abbrev pub item_of : Option ListElement → ℤ
item_of none = pos 0
item_of (some e) = e.item

unfoldable pub choose_victim : ℕ → Vm → Vm × ℤ
choose_victim rand vm =
    let (queue, first) = remove vm.swap_queue in
    if vm.run_with_fifo
    then (record vm { swap_queue = queue }, item_of first)
    else (vm, pos (rand % num_phys_pages))

-- An entry that the loop finds becomes invalid, and its dirty bit is collected.
abbrev pub drop_hit : Bool → ℕ → (ℕ → TranslationEntry) → Bool → (ℕ → TranslationEntry) × Bool
drop_hit true i tlb dirty =
    (with_entry tlb i (record (tlb i) { valid = false }), dirty || (tlb i).dirty)
drop_hit false i tlb dirty = (tlb, dirty)

-- The loop that takes an evicted page out of the TLB.
unfoldable pub drop_page :
    ℕ → ℕ → ℤ → Bool → (ℕ → TranslationEntry) → Bool → (ℕ → TranslationEntry) × Bool
drop_page zero i k owned tlb dirty = (tlb, dirty)
drop_page (suc n) i k owned tlb dirty =
    let (tlb', dirty') =
      drop_hit (eqb_ℤ (tlb i).virtual_page k && (owned && (tlb i).valid)) i tlb dirty in
    drop_page n (i + 1) k owned tlb' dirty'

abbrev pub swapped_out : ℕ → ExtendedTranslationEntry → ExtendedTranslationEntry
swapped_out l e = record e { disk_location = swap; byte_offset = pos (page_size * l) }

-- The frame goes to the place of the swap file that `Find` gave; with -1 the write fails.
abbrev pub save_at : ℕ → Vm → BitMap × ℤ → Option Vm
save_at v vm (map, negsuc l) = none
save_at v vm (map, pos l) =
    and_then
      (update_page (vm.ipt v).space_owner (vm.ipt v).entry.virtual_page (swapped_out l)
        vm.processes)
      λ processes. some (record vm {
        swap_map = map;
        swapfile = write_page vm.swapfile vm.memory (v * page_size) (page_size * l);
        processes = processes;
      })

unfoldable pub save_frame : ℕ → Vm → Option Vm
save_frame v vm = if (vm.ipt v).entry.dirty then save_at v vm (find vm.swap_map) else some vm

abbrev pub absent : ExtendedTranslationEntry → ExtendedTranslationEntry
absent e = record e { entry = record e.entry { physical_page = minus_one } }

abbrev pub with_dirty : Bool → IptEntry → IptEntry
with_dirty d i = record i { entry = record i.entry { dirty = d } }

abbrev pub dropped : ℕ → Vm → (ℕ → TranslationEntry) × Bool → Vm
dropped v vm (tlb, dirty) = record vm {
  tlb = tlb;
  ipt = with_entry vm.ipt v (with_dirty dirty (vm.ipt v));
}

abbrev pub forget_page : ℕ → Vm → Option (Vm × ℕ)
forget_page v vm =
    and_then (update_page (vm.ipt v).space_owner (vm.ipt v).entry.virtual_page absent vm.processes)
      λ processes. some (record vm { processes = processes }, v)

-- The rest of `handleMemoryFull` for the page `pageToBoot`.
unfoldable pub evict : ℕ → Vm → Option (Vm × ℕ)
evict v vm = and_then (process_at vm.processes (vm.ipt v).space_owner) λ p.
    and_then
      (save_frame v (
        dropped v vm (
          drop_page tlb_size 0 (vm.ipt v).entry.virtual_page
            (eqb_ℤ (vm.ipt v).space_owner p.space_id) vm.tlb (vm.ipt v).entry.dirty)))
      (forget_page v)

abbrev pub evict_at : Vm × ℤ → Option (Vm × ℕ)
evict_at (vm, pos v) = if ltb v num_phys_pages then evict v vm else none
evict_at (vm, negsuc v) = none

-- `handleMemoryFull`; `rand` is what `rand()` returns.
unfoldable pub handle_memory_full : ℕ → Vm → Option (Vm × ℕ)
handle_memory_full rand vm = evict_at (choose_victim rand vm)

abbrev pub take_frame : ℕ → Vm → BitMap × ℤ → Option (Vm × ℕ)
take_frame rand vm (map, negsuc _) = handle_memory_full rand (record vm { frames = map })
take_frame rand vm (map, pos ppn) =
    if ltb ppn num_phys_pages then some (record vm { frames = map }, ppn) else none

abbrev pub read_into : File → ℤ → ℕ → Vm → Option Vm
read_into f offset ppn vm =
    and_then (read_page f (ppn * page_size) offset vm.memory)
      λ memory. some (record vm { memory = memory })

abbrev pub load_from : DiskLocation → ℤ → ℕ → Vm → Option Vm
load_from executable offset ppn vm =
    and_then (vm.processes vm.current) λ p. read_into p.program offset ppn vm
load_from swap offset ppn vm = read_into vm.swapfile offset ppn vm
load_from neither offset ppn vm = some vm

abbrev pub enqueued : ℕ → Vm → Queue
enqueued ppn vm = if vm.run_with_fifo then append (pos ppn) vm.swap_queue else vm.swap_queue

abbrev pub present : ℤ → ℕ → ExtendedTranslationEntry → ExtendedTranslationEntry
present k ppn e = record e {
  entry = record e.entry { physical_page = pos ppn; virtual_page = k; valid = true };
}

abbrev pub resident : ℤ → ℕ → ℕ → IptEntry → IptEntry
resident k ppn owner i = record i {
  entry = record i.entry { virtual_page = k; physical_page = pos ppn; valid = true };
  space_owner = pos owner;
}

abbrev pub enter : ℤ → ℕ → Vm → Option (Vm × ℕ)
enter k ppn vm = and_then (update_page (pos vm.current) k (present k ppn) vm.processes) λ processes.
    some (
      record vm {
        swap_queue = enqueued ppn vm;
        ipt = with_entry vm.ipt ppn (resident k ppn vm.current (vm.ipt ppn));
        processes = processes;
      },
      ppn,
    )

abbrev pub fill_frame : ℤ → Vm × ℕ → Option (Vm × ℕ)
fill_frame k (vm, ppn) =
    and_then (page vm.processes (pos vm.current) k)
      λ e. and_then (load_from e.disk_location e.byte_offset ppn vm) (enter k ppn)

-- `handleIPTMiss`
unfoldable pub handle_ipt_miss : ℕ → ℤ → Vm → Option (Vm × ℕ)
handle_ipt_miss rand k vm = and_then (take_frame rand vm (find vm.frames)) (fill_frame k)

-- `virtualAddress / PageSize`, rounded towards zero
abbrev pub negated : ℕ → ℤ
negated zero = pos 0
negated (suc n) = negsuc n

abbrev pub page_number : ℤ → ℤ
page_number (pos n) = pos (n / page_size)
page_number (negsuc n) = negated ((n + 1) / page_size)

unfoldable pub find_ipt : ℕ → ℕ → ℤ → ℕ → (ℕ → IptEntry) → Option ℕ
find_ipt zero i k owner ipt = none
find_ipt (suc n) i k owner ipt =
    let rest = find_ipt n (i + 1) k owner ipt in
    if eqb_ℤ (ipt i).entry.virtual_page k
      && (eqb_ℤ (ipt i).space_owner (pos owner) && (ipt i).entry.valid)
    then some i
    else rest

abbrev pub frame_for : ℕ → ℤ → Vm → Option ℕ → Option (Vm × ℕ)
frame_for rand k vm none = handle_ipt_miss rand k vm
frame_for rand k vm (some ppn) = some (vm, ppn)

-- `tlbCounter % 4`; `none` is a negative index.
abbrev pub slot_of : ℤ → Option ℕ
slot_of (pos n) = some (n % tlb_size)
slot_of (negsuc n) = if (n + 1) % tlb_size == 0 then some 0 else none

abbrev pub set_dirty : ℤ → Bool → Vm → Option Vm
set_dirty (pos f) d vm =
    if ltb f num_phys_pages
    then some (record vm { ipt = with_entry vm.ipt f (with_dirty d (vm.ipt f)) })
    else none
set_dirty (negsuc f) d vm = none

-- The dirty bit of a TLB entry that is about to be lost.
unfoldable pub write_back : TranslationEntry → Vm → Option Vm
write_back e vm = if e.valid then set_dirty e.physical_page e.dirty vm else some vm

-- The TLB entry takes the six fields of the frame's entry in the inverted page table.
abbrev pub load_tlb : Vm × ℕ → Option Vm
load_tlb (vm, ppn) = and_then (slot_of vm.tlb_counter) λ slot.
    and_then (write_back (vm.tlb slot) vm)
      λ vm'. some (record vm' { tlb = with_entry vm'.tlb slot (vm'.ipt ppn).entry })

-- `HandlePageFault`, with interrupts off; the counter is taken not to overflow.
unfoldable pub handle_page_fault : ℕ → ℤ → Vm → Option Vm
handle_page_fault rand addr vm =
    and_then
      (frame_for rand (page_number addr) (record vm { tlb_counter = vm.tlb_counter +ℤ pos 1 })
        (find_ipt num_phys_pages 0 (page_number addr) vm.current vm.ipt))
      load_tlb
