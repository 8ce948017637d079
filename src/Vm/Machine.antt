-- ===== src/Vm/Machine.antt =====
-- machine/translate.cc: from virtual to physical addresses through a TLB or a page table, and the
-- reads and writes of memory.
pub mod Served
pub mod Access
pub mod Find
pub mod Again
pub mod Bytes
use cs350project.Prelude.{
  ℕ, zero, suc, ◌+◌, ◌-◌, ◌*◌, ◌/◌, ◌%◌, ◌^◌, ltb, leb, ◌==◌, Bool, true, false, not, ◌&&◌, ◌||◌,
  if◌then◌else◌, ℤ, pos, negsuc, Option, none, some, List, get_elem?, set,
}

pub record TranslationEntry : Type 0 where
  pub virtual_page : ℤ
  pub physical_page : ℤ
  pub valid : Bool
  pub read_only : Bool
  pub used : Bool
  pub dirty : Bool

pub data ExceptionType : Type 0 where
  syscall : ExceptionType
  page_fault : ExceptionType
  read_only_error : ExceptionType
  bus_error : ExceptionType
  address_error : ExceptionType
  overflow : ExceptionType
  illegal_instr : ExceptionType

-- PageSize, NumPhysPages, MemorySize and TLBSize
abbrev pub page_size : ℕ
page_size = 128

abbrev pub num_phys_pages : ℕ
num_phys_pages = 32

abbrev pub memory_size : ℕ
memory_size = 4096

abbrev pub tlb_size : ℕ
tlb_size = 4

-- An array as a function of its index, after a write.
abbrev pub with_entry {ℓ} : {A : Type ℓ} → (ℕ → A) → ℕ → A → ℕ → A
with_entry f i a j = if i == j then a else f j

-- `memory` holds bytes; `tlb` and `page_table` are `none` for NULL, and `page_table` has as many
-- entries as `pageTableSize` says.
pub record Machine : Type 0 where
  pub memory : ℕ → ℕ
  pub tlb : Option (ℕ → TranslationEntry)
  pub page_table : Option (List TranslationEntry)
  pub last_used : ℕ → ℕ

-- `(unsigned)` of an int
unfoldable pub unsigned : ℤ → ℕ
unsigned (pos n) = n % 2 ^ 32
unsigned (negsuc n) = 2 ^ 32 - 1 - n % 2 ^ 32

-- What `Translate` returns: a physical address with NoException, or an exception.
pub data Translated : Type 0 where
  translated : ℕ → Translated
  raised : ExceptionType → Translated

unfoldable pub misaligned : ℕ → ℤ → Bool
misaligned size addr =
    (size == 4 && not (unsigned addr % 4 == 0)) || (size == 2 && not (unsigned addr % 2 == 0))

-- The loop over the TLB: the first entry that is valid and has the page.
unfoldable pub find_tlb : ℕ → ℕ → ℕ → (ℕ → TranslationEntry) → Option ℕ
find_tlb zero i vpn tlb = none
find_tlb (suc n) i vpn tlb =
    let rest = find_tlb n (i + 1) vpn tlb in
    if (tlb i).valid && unsigned (tlb i).virtual_page == vpn then some i else rest

-- `use` is set, and `dirty` by a write.
abbrev pub touched : Bool → TranslationEntry → TranslationEntry
touched writing e = record e { used = true; dirty = e.dirty || writing }

-- The checks of an entry that was found; `none` is a failed ASSERT.
unfoldable pub check_entry : Bool → ℕ → ℕ → TranslationEntry → Option Translated
check_entry writing offset size e =
    if e.read_only && writing
    then some (raised ExceptionType.read_only_error)
    else if leb num_phys_pages (unsigned e.physical_page)
    then some (raised ExceptionType.bus_error)
    else if leb (unsigned e.physical_page * page_size + offset + size) memory_size
    then some (translated (unsigned e.physical_page * page_size + offset))
    else none

-- The bits of the entry are set on success only.
abbrev pub conclude : Option Translated → Machine → Machine → Option (Machine × Translated)
conclude none m m' = none
conclude (some (translated a)) m m' = some (m', translated a)
conclude (some (raised x)) m m' = some (m, raised x)

abbrev pub by_tlb :
    Bool → ℕ → ℕ → (ℕ → TranslationEntry) → Machine → Option ℕ → Option (Machine × Translated)
by_tlb writing offset size tlb m none = some (m, raised ExceptionType.page_fault)
by_tlb writing offset size tlb m (some i) =
    conclude (check_entry writing offset size (tlb i)) m
      (record m { tlb = some (with_entry tlb i (touched writing (tlb i))) })

abbrev pub by_table :
    Bool
    → ℕ
    → ℕ
    → ℕ
    → List TranslationEntry
    → Machine
    → Option TranslationEntry
    → Option (Machine × Translated)
by_table writing offset size vpn table m none = some (m, raised ExceptionType.address_error)
by_table writing offset size vpn table m (some e) =
    if e.valid
    then conclude (check_entry writing offset size e) m
        (record m { page_table = some (set table vpn (touched writing e)) })
    else some (m, raised ExceptionType.page_fault)

-- Behind the alignment check: exactly one of the two must be there.
abbrev pub look_up :
    Bool
    → ℕ
    → ℕ
    → Machine
    → Option (ℕ → TranslationEntry)
    → Option (List TranslationEntry)
    → Option (Machine × Translated)
look_up writing u size m none none = none
look_up writing u size m none (some table) =
    by_table writing (u % page_size) size (u / page_size) table m (get_elem? table (u / page_size))
look_up writing u size m (some tlb) none =
    by_tlb writing (u % page_size) size tlb m (find_tlb tlb_size 0 (u / page_size) tlb)
look_up writing u size m (some tlb) (some table) = none

-- `Machine::Translate`
unfoldable pub translate : ℤ → ℕ → Bool → Machine → Option (Machine × Translated)
translate addr size writing m =
    if misaligned size addr
    then some (m, raised ExceptionType.address_error)
    else look_up writing (unsigned addr) size m m.tlb m.page_table

-- An int by its 32 bits, and a char by its 8.
unfoldable pub signed : ℕ → ℤ
signed w = if ltb w (2 ^ 31) then pos w else negsuc (2 ^ 32 - 1 - w)

unfoldable pub signed_char : ℕ → ℤ
signed_char b = if ltb b 128 then pos b else negsuc (255 - b)

-- `n` bytes, the lowest first
unfoldable pub little_endian : ℕ → ℕ → (ℕ → ℕ) → ℕ
little_endian zero a memory = 0
little_endian (suc n) a memory = memory a + 256 * little_endian n (a + 1) memory

-- The switch of `ReadMem`; `none` is ASSERT(FALSE).
unfoldable pub load : ℕ → ℕ → (ℕ → ℕ) → Option ℤ
load size a memory =
    if size == 1
    then some (signed_char (little_endian 1 a memory))
    else if size == 2
    then some (pos (little_endian 2 a memory))
    else if size == 4
    then some (signed (little_endian 4 a memory))
    else none

unfoldable pub write_bytes : ℕ → ℕ → ℕ → (ℕ → ℕ) → ℕ → ℕ
write_bytes zero a w memory = memory
write_bytes (suc n) a w memory = write_bytes n (a + 1) (w / 256) (with_entry memory a (w % 256))

-- The switch of `WriteMem`.
unfoldable pub store : ℕ → ℕ → ℤ → (ℕ → ℕ) → Option (ℕ → ℕ)
store size a value memory =
    if size == 1 || size == 2 || size == 4
    then some (write_bytes size a (unsigned value) memory)
    else none

-- What an access ends in: FALSE after `RaiseException`, or TRUE with what was read.
pub data Outcome (A : Type 0) : Type 0 where
  fault : ExceptionType → Outcome A
  ok : A → Outcome A

abbrev pub accessed : {A : Type 0} → ℕ → ℕ → Machine → Option A → Option (Machine × Outcome A)
accessed now a m none = none
accessed now a m (some v) =
    some (record m { last_used = with_entry m.last_used (a / page_size) now }, ok v)

abbrev pub read_at : ℕ → ℕ → Option (Machine × Translated) → Option (Machine × Outcome ℤ)
read_at now size none = none
read_at now size (some (m, raised x)) = some (m, fault x)
read_at now size (some (m, translated a)) = accessed now a m (load size a m.memory)

-- `Machine::ReadMem` at the time `now`, up to the handler of an exception
unfoldable pub read_mem : ℕ → ℤ → ℕ → Machine → Option (Machine × Outcome ℤ)
read_mem now addr size m = read_at now size (translate addr size false m)

abbrev pub stored : ℕ → ℕ → Machine → Option (ℕ → ℕ) → Option (Machine × Outcome (Unit {0}))
stored now a m none = none
stored now a m (some memory) = accessed now a (record m { memory = memory }) (some tt)

abbrev pub write_at :
    ℕ → ℕ → ℤ → Option (Machine × Translated) → Option (Machine × Outcome (Unit {0}))
write_at now size value none = none
write_at now size value (some (m, raised x)) = some (m, fault x)
write_at now size value (some (m, translated a)) = stored now a m (store size a value m.memory)

-- `Machine::WriteMem`
unfoldable pub write_mem : ℕ → ℤ → ℕ → ℤ → Machine → Option (Machine × Outcome (Unit {0}))
write_mem now addr size value m = write_at now size value (translate addr size true m)
