-- ===== src/Vm/Space/Growth.antt =====
-- The page tables that the constructor and `NewPageTable` make.
use cs350project.Prelude.{
  ℕ, zero, suc, ◌+◌, ◌*◌, ◌/◌, ◌-◌, ◌<◌, ◌≡◌, refl, ◌∙◌, ap, arith, ltb, if◌then◌else◌, ℤ, pos,
  true, minus_one, none, some, List, [], ◌∷◌, get_elem?,
}
use cs350project.Bitmap.{div_round_up}
use cs350project.Vm.Paging.{executable, neither, ExtendedTranslationEntry}
use cs350project.Vm.Handler.Invariant.{is_readable}
use cs350project.Vm.Space.{
  fresh_entry, initial_entry, initial_pages, new_page_table, stack_top, stack_pages, copy_pages,
  num_pages, new_stack,
}

get-initial_pages :
    (stray : ℕ → ℤ) (loaded n i k : ℕ)
    → get_elem? (initial_pages stray loaded n i) k
      ≡ (if ltb k n then some (initial_entry stray loaded (i + k)) else none)
unfolding initial_pages
get-initial_pages stray loaded zero i k = ground arith
get-initial_pages stray loaded (suc n) i zero =
    let z : i + 0 ≡ i = omega arith in rw z (ground arith)
get-initial_pages stray loaded (suc n) i (suc k) =
    let s : i + suc k ≡ i + 1 + k = omega arith in
    rw s (get-initial_pages stray loaded n (i + 1) k ∙ ground arith)

initial_pages-lt :
    (stray : ℕ → ℤ) (loaded n k : ℕ)
    → k < n
    → get_elem? (initial_pages stray loaded n 0) k ≡ some (initial_entry stray loaded k)
initial_pages-lt stray loaded n k lt =
    let z : 0 + k ≡ k = omega arith in
    get-initial_pages stray loaded n 0 k
    ∙ (ground (arith, lt) ∙ ap (λ j. some (initial_entry stray loaded j)) z)

pages_reach : (a b : ℕ) → a < b → a / 128 < div_round_up b 128
unfolding div_round_up
pages_reach a b lt = ground arith

-- The page table of a new address space has an entry for each address of the program and of the first
-- stack, under its own page number, and the handler can load it; a page with code or initialised data is
-- read from its place in the executable.
pub new_page_table-covers :
    (stray : ℕ → ℤ) (code data_size bss a : ℕ)
    → a / 128 < stack_top code data_size bss + 8
    → (e : ExtendedTranslationEntry) × (get_elem?
          (new_page_table stray code data_size bss)
          (a / 128)
        ≡ some e)
      × (is_readable e ≡ true)
      × (e.entry.virtual_page ≡ pos (a / 128))
      × (a < code + data_size
          → (e.disk_location ≡ executable) × (e.byte_offset ≡ pos (40 + a / 128 * 128)))
unfolding new_page_table div_round_up
new_page_table-covers stray code data_size bss a lt =
    let loaded = div_round_up (code + data_size) 128 in
    let e = initial_entry stray loaded (a / 128) in
    (
      e,
      initial_pages-lt stray loaded _ (a / 128) lt,
      ground arith,
      refl,
      λ inside. ground (arith, pages_reach a (code + data_size) inside),
    )

-- A program's addresses are below its first stack.
pub stack_top-reaches :
    (code data_size bss a : ℕ) → a < code + data_size + bss → a / 128 < stack_top code data_size bss
stack_top-reaches code data_size bss a lt = pages_reach a (code + data_size + bss) lt

get-stack_pages :
    (n i k : ℕ)
    → get_elem? (stack_pages n i) k
      ≡ (if ltb k n then some (fresh_entry (i + k) minus_one minus_one neither) else none)
unfolding stack_pages
get-stack_pages zero i k = ground arith
get-stack_pages (suc n) i zero = let z : i + 0 ≡ i = omega arith in rw z (ground arith)
get-stack_pages (suc n) i (suc k) =
    let s : i + suc k ≡ i + 1 + k = omega arith in rw s (get-stack_pages n (i + 1) k ∙ ground arith)

get-copy_pages :
    (table rest : List ExtendedTranslationEntry) (k : ℕ)
    → get_elem? (copy_pages table rest) k ≡ (
        if ltb k (num_pages table) then get_elem? table k else get_elem? rest (k - num_pages table))
unfolding copy_pages
get-copy_pages [] rest k = ground arith
get-copy_pages (e ∷ es) rest zero = ground arith
get-copy_pages (e ∷ es) rest (suc k) = get-copy_pages es rest k ∙ ground arith

-- `NewPageTable` returns the number of the first page of the new stack. Every former entry stays; the
-- eight pages of the new stack have fresh entries under their own numbers, in no frame and not on the
-- disk; and there are no others.
pub get-new_stack :
    (table : List ExtendedTranslationEntry) (k : ℕ)
    → let (table', first) = new_stack table in
      get_elem? table' k ≡ (
        if ltb k first
        then get_elem? table k
        else if ltb k (first + 8)
        then some (fresh_entry k minus_one minus_one neither)
        else none)
unfolding new_stack
get-new_stack table k =
    get-copy_pages table (stack_pages 8 (num_pages table)) k
    ∙ ground (arith, get-stack_pages 8 (num_pages table) (k - num_pages table))
