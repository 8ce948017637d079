-- ===== src/Vm/Paging.antt =====
-- What the page fault handler works on: the inverted page table, the swap file and the page tables
-- of the processes (userprog/addrspace.h, threads/system.h), with reads and writes of pages.
pub mod Tables
use cs350project.Prelude.{
  ℕ, zero, suc, ◌+◌, ◌-◌, ◌*◌, ◌/◌, ◌%◌, ltb, ◌==◌, Bool, true, false, ◌&&◌, ◌||◌, if◌then◌else◌, ℤ,
  pos, negsuc, minus_one, ◌+ℤ◌, eqb_ℤ, Option, none, some, List, get_elem?, set, at_ℤ, max,
  and_then,
}
use cs350project.Bitmap.{BitMap, find}
use cs350project.Threads.Queue.{ListElement, Queue, append, remove}
use cs350project.Vm.Machine.{
  TranslationEntry, with_entry, page_size, num_phys_pages, tlb_size, Machine,
}

-- userprog/addrspace.h
pub data DiskLocation : Type 0 where
  swap : DiskLocation
  executable : DiskLocation
  neither : DiskLocation

pub record ExtendedTranslationEntry : Type 0 where
  pub entry : TranslationEntry
  pub byte_offset : ℤ
  pub disk_location : DiskLocation

-- A file of the host system: `size` bytes.
pub record File : Type 0 where
  pub size : ℕ
  pub bytes : ℕ → ℕ

-- A process with its address space's page table.
pub record Process : Type 0 where
  pub space_id : ℤ
  pub page_table : List ExtendedTranslationEntry
  pub program : File

pub record IptEntry : Type 0 where
  pub entry : TranslationEntry
  pub space_owner : ℤ

-- The globals of threads/system.cc and the machine's memory and TLB.  `processes` gives the processes
-- in the table by their number; `current` is the `processId` of the running thread's space.
pub record Vm : Type 0 where
  pub memory : ℕ → ℕ
  pub tlb : ℕ → TranslationEntry
  pub ipt : ℕ → IptEntry
  pub frames : BitMap
  pub swapfile : File
  pub swap_map : BitMap
  pub swap_queue : Queue
  pub tlb_counter : ℤ
  pub run_with_fifo : Bool
  pub processes : ℕ → Option Process
  pub current : ℕ

-- The machine as `Translate` sees it, with a TLB and no page table.
abbrev pub machine : Vm → Machine
machine vm = record { memory = vm.memory; tlb = some vm.tlb; page_table = none; last_used = λ i. 0 }

-- `ReadAt` of a file into memory at `into`: a short read leaves the rest of the memory, and a negative
-- position fails the assertion of `Lseek`.
abbrev pub read_page : File → ℕ → ℤ → (ℕ → ℕ) → Option (ℕ → ℕ)
read_page f into (negsuc p) memory = none
read_page f into (pos p) memory = some λ a.
    if ltb a into
    then memory a
    else if ltb (a - into) page_size && ltb (p + (a - into)) f.size
    then f.bytes (p + (a - into))
    else memory a

-- `WriteAt`: a gap behind the end of the file is filled with zeros.
abbrev pub write_page : File → (ℕ → ℕ) → ℕ → ℕ → File
write_page f memory from p = record {
  size = max f.size (p + page_size);
  bytes = λ q.
      if ltb q p
      then (if ltb q f.size then f.bytes q else 0)
      else if ltb (q - p) page_size
      then memory (from + (q - p))
      else if ltb q f.size
      then f.bytes q
      else 0;
}

-- `processTable->processEntries[o]`; `none` is a null pointer or lies outside of the table.
abbrev pub process_at : (ℕ → Option Process) → ℤ → Option Process
process_at processes (pos o) = processes o
process_at processes (negsuc o) = none

-- The page table entry of a process, and its update; `none` is a null pointer or an index outside of
-- the table.
abbrev pub page_of : Option Process → ℤ → Option ExtendedTranslationEntry
page_of none k = none
page_of (some p) k = at_ℤ p.page_table k

abbrev pub page : (ℕ → Option Process) → ℤ → ℤ → Option ExtendedTranslationEntry
page processes o k = page_of (process_at processes o) k

abbrev pub put_page :
    (ℕ → Option Process)
    → ℤ
    → ℤ
    → Process
    → Option ExtendedTranslationEntry
    → (ExtendedTranslationEntry → ExtendedTranslationEntry)
    → Option (ℕ → Option Process)
put_page processes (pos o) (pos k) p (some e) f =
    some (with_entry processes o (some (record p { page_table = set p.page_table k (f e) })))
put_page processes o k p e f = none

unfoldable pub update_page :
    ℤ
    → ℤ
    → (ExtendedTranslationEntry → ExtendedTranslationEntry)
    → (ℕ → Option Process)
    → Option (ℕ → Option Process)
update_page o k f processes =
    and_then (process_at processes o) λ p. put_page processes o k p (at_ℤ p.page_table k) f
