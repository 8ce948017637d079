-- ===== src/Vm/Space.antt =====
-- What userprog/addrspace.cc does with page tables, the TLB and the frames: the constructor's page
-- table, context switches, new stacks, and the ends of threads and processes.
pub mod Switch
pub mod Dirty
pub mod Growth
pub mod Release
use cs350project.Prelude.{
  ℕ, zero, suc, ◌+◌, ◌*◌, ltb, ◌==◌, not, ◌||◌, Bool, true, false, if◌then◌else◌, ℤ, pos, negsuc,
  minus_one, eqb_ℤ, Option, none, some, List, [], ◌∷◌, get_elem?, set, and_then,
}
use cs350project.Bitmap.{BitMap, div_round_up, clear}
use cs350project.Vm.Machine.{
  TranslationEntry, with_entry, page_size, num_phys_pages, tlb_size, Machine,
}
use cs350project.Vm.Paging.{
  DiskLocation, swap, executable, neither, ExtendedTranslationEntry, IptEntry, Process, Vm,
}
use cs350project.Vm.Handler.{write_back}

-- UserStackSize
abbrev pub stack_size : ℕ
stack_size = 1024

abbrev pub fresh_entry : ℕ → ℤ → ℤ → DiskLocation → ExtendedTranslationEntry
fresh_entry i frame offset location = record {
  entry = record {
    virtual_page = pos i;
    physical_page = frame;
    valid = false;
    read_only = false;
    used = false;
    dirty = false;
  };
  byte_offset = offset;
  disk_location = location;
}

-- The loop of the constructor over the pages; the frame is not set, so that it is as the memory was.
-- The first `loaded` pages are in the executable, behind its header of 40 bytes.
abbrev pub initial_entry : (ℕ → ℤ) → ℕ → ℕ → ExtendedTranslationEntry
initial_entry stray loaded i =
    fresh_entry i (stray i) (pos (40 + i * page_size))
      (if ltb i loaded then executable else neither)

unfoldable pub initial_pages : (ℕ → ℤ) → ℕ → ℕ → ℕ → List ExtendedTranslationEntry
initial_pages stray loaded zero i = []
initial_pages stray loaded (suc n) i =
    initial_entry stray loaded i ∷ initial_pages stray loaded n (i + 1)

-- The page table of a new space, for a program with these sizes of code and data.
unfoldable pub new_page_table : (ℕ → ℤ) → ℕ → ℕ → ℕ → List ExtendedTranslationEntry
new_page_table stray code data_size bss =
    initial_pages stray (div_round_up (code + data_size) page_size)
      (div_round_up (code + data_size + bss) page_size + div_round_up stack_size page_size) 0

-- `StackTopForMain`, the first page of the first stack
abbrev pub stack_top : ℕ → ℕ → ℕ → ℕ
stack_top code data_size bss = div_round_up (code + data_size + bss) page_size

-- The loop of `SaveState` and of `RestoreState`: `none` is a write outside of the inverted page table.
abbrev pub flush_at : ℕ → Vm → Vm
flush_at i vm = record vm { tlb = with_entry vm.tlb i (record (vm.tlb i) { valid = false }) }

unfoldable pub flush_from : ℕ → ℕ → Vm → Option Vm
flush_from zero i vm = some vm
flush_from (suc n) i vm =
    and_then (write_back (vm.tlb i) vm) λ vm'. flush_from n (i + 1) (flush_at i vm')

-- `SaveState`
unfoldable pub save_state : Vm → Option Vm
save_state vm = flush_from tlb_size 0 vm

-- `RestoreState`, which does the same.
unfoldable pub restore_state : Vm → Option Vm
restore_state vm = flush_from tlb_size 0 vm

-- `Scheduler::Run` of threads/scheduler.cc, between two threads with address spaces.
unfoldable pub switch_to : ℕ → Vm → Option Vm
switch_to next vm = and_then (save_state vm) λ vm'. restore_state (record vm' { current = next })

-- The loop over the pages of the new stack.
unfoldable pub stack_pages : ℕ → ℕ → List ExtendedTranslationEntry
stack_pages zero i = []
stack_pages (suc n) i = fresh_entry i minus_one minus_one neither ∷ stack_pages n (i + 1)

-- The loop that copies the entries, field by field.
unfoldable pub copy_pages :
    List ExtendedTranslationEntry → List ExtendedTranslationEntry → List ExtendedTranslationEntry
copy_pages [] rest = rest
copy_pages (e ∷ es) rest = e ∷ copy_pages es rest

abbrev pub num_pages : List ExtendedTranslationEntry → ℕ
num_pages [] = 0
num_pages (e ∷ es) = suc (num_pages es)

-- `NewPageTable`: the table with eight pages more, and the number of the first of them.
unfoldable pub new_stack : List ExtendedTranslationEntry → List ExtendedTranslationEntry × ℕ
new_stack table = (copy_pages table (stack_pages 8 (num_pages table)), num_pages table)

-- The inner loop of `DeleteCurrentThread`.  Its test assigns (`=`): the page number is written into
-- every entry, and the entry becomes invalid where that number is not 0.
abbrev pub assigned : ℕ → TranslationEntry → TranslationEntry
assigned k e = record e { physical_page = pos k; valid = if k == 0 then e.valid else false }

unfoldable pub assign_from : ℕ → ℕ → ℕ → (ℕ → TranslationEntry) → ℕ → TranslationEntry
assign_from zero j k tlb = tlb
assign_from (suc n) j k tlb = assign_from n (j + 1) k (with_entry tlb j (assigned k (tlb j)))

abbrev pub is_absent : ℤ → Bool
is_absent frame = eqb_ℤ frame minus_one

abbrev pub without_frame : ExtendedTranslationEntry → ExtendedTranslationEntry
without_frame e = record e { entry = record e.entry { physical_page = minus_one; valid = false } }

abbrev pub invalidated : ExtendedTranslationEntry → ExtendedTranslationEntry
invalidated e = record e { entry = record e.entry { valid = false } }

-- The bitmap of frames, the TLB and a page table.
pub record Stack : Type 0 where
  pub frames : BitMap
  pub tlb : ℕ → TranslationEntry
  pub table : List ExtendedTranslationEntry

abbrev pub release_page : ℕ → Stack → Option ExtendedTranslationEntry → Option Stack
release_page k s none = none
release_page k s (some e) =
    if is_absent e.entry.physical_page
    then some (record s { table = set s.table k (invalidated e) })
    else and_then (clear s.frames e.entry.physical_page) λ frames. some (record {
      frames = frames;
      tlb = assign_from tlb_size 0 k s.tlb;
      table = set s.table k (without_frame e);
    })

-- The outer loop of `DeleteCurrentThread`, over the pages of the thread's stack.
unfoldable pub release_stack : ℕ → ℕ → Stack → Option Stack
release_stack zero k s = some s
release_stack (suc n) k s =
    and_then (release_page k s (get_elem? s.table k)) (release_stack n (k + 1))

-- The loop of `~AddrSpace`: the frames of the process are free, in the bitmap.
unfoldable pub release_frames : ℕ → ℕ → ℤ → (ℕ → IptEntry) → BitMap → Option BitMap
release_frames zero i owner ipt frames = some frames
release_frames (suc n) i owner ipt frames =
    and_then
      (if eqb_ℤ (ipt i).space_owner owner
        then clear frames (ipt i).entry.physical_page
        else some frames)
      (release_frames n (i + 1) owner ipt)

-- `~AddrSpace`
unfoldable pub delete_space : ℤ → Vm → Option Vm
delete_space owner vm =
    and_then (release_frames num_phys_pages 0 owner vm.ipt vm.frames)
      λ frames. some (record vm { frames = frames })
