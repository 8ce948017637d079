-- ===== src/Vm/Machine/Access.antt =====
-- Where a translation leads, and what a read finds after a write.
use cs350project.Prelude.{
  ℕ, ◌+◌, ◌%◌, ◌≤◌, ◌≡◌, arith, ◌==◌, ◌||◌, Bool, true, false, ℤ, Option, none, some, List, inl,
  inr, Bool-cases, if_both,
}
use cs350project.Vm.Machine.{
  TranslationEntry, Machine, Translated, translated, raised, unsigned, misaligned, check_entry,
  conclude, by_tlb, by_table, look_up, translate,
}

-- A page table or a TLB, and not both.
abbrev pub has_one : Option (ℕ → TranslationEntry) → Option (List TranslationEntry) → Bool
has_one none (some table) = true
has_one (some tlb) none = true
has_one _ _ = false

abbrev pub is_size : ℕ → Bool
is_size size = size == 1 || size == 2 || size == 4

-- The address keeps its offset in the page and the access stays in memory.
abbrev pub InMemory : ℕ → ℕ → Translated → Type 0
InMemory u size (translated a) = (a % 128 ≡ u % 128) × (a + size ≤ 4096)
InMemory u size (raised x) = Unit {0}

abbrev pub Concludes : ℕ → ℕ → Option (Machine × Translated) → Type 0
Concludes u size none = ⊥
Concludes u size (some (m, r)) = InMemory u size r

abbrev Checked : ℕ → ℕ → Option Translated → Type 0
Checked u size none = ⊥
Checked u size (some r) = InMemory u size r

module _ (addr : ℤ) (size : ℕ) (sized : is_size size ≡ true)
    (even : misaligned size addr ≡ false) where
  check_entry-Checked :
      (writing : Bool) (e : TranslationEntry)
      → Checked (unsigned addr) size (check_entry writing (unsigned addr % 128) size e)
  unfolding check_entry misaligned
  check_entry-Checked writing e = ground arith

  conclude-Concludes :
      (o : Option Translated) (m m' : Machine)
      → Checked (unsigned addr) size o
      → Concludes (unsigned addr) size (conclude o m m')
  conclude-Concludes none m m' h = h
  conclude-Concludes (some (translated a)) m m' h = h
  conclude-Concludes (some (raised x)) m m' h = h

  by_tlb-Concludes :
      (writing : Bool) (tlb : ℕ → TranslationEntry) (m : Machine) (o : Option ℕ)
      → Concludes (unsigned addr) size (by_tlb writing (unsigned addr % 128) size tlb m o)
  by_tlb-Concludes writing tlb m none = tt
  by_tlb-Concludes writing tlb m (some i) =
      conclude-Concludes _ _ _ (check_entry-Checked writing (tlb i))

  by_table-Concludes :
      (writing : Bool) (vpn : ℕ) (table : List TranslationEntry) (m : Machine)
      (o : Option TranslationEntry)
      → Concludes (unsigned addr) size (by_table writing (unsigned addr % 128) size vpn table m o)
  by_table-Concludes writing vpn table m none = tt
  by_table-Concludes writing vpn table m (some e) =
      if_both (Concludes (unsigned addr) size) e.valid _ _
        (conclude-Concludes _ _ _ (check_entry-Checked writing e)) tt

  look_up-Concludes :
      (writing : Bool) (m : Machine) (t : Option (ℕ → TranslationEntry))
      (p : Option (List TranslationEntry))
      → has_one t p ≡ true
      → Concludes (unsigned addr) size (look_up writing (unsigned addr) size m t p)
  look_up-Concludes writing m none none h = absurd (cc)
  look_up-Concludes writing m none (some table) h = by_table-Concludes writing _ table m _
  look_up-Concludes writing m (some tlb) none h = by_tlb-Concludes writing tlb m _
  look_up-Concludes writing m (some tlb) (some table) h = absurd (cc)

-- With either a TLB or a page table, the translation of an access of 1, 2 or 4 bytes fails no
-- assertion, whatever the entries hold: it raises an exception, or gives an address with the offset
-- in its page of the virtual one, and the whole access lies in memory.
pub translate_lands :
    (addr : ℤ) (size : ℕ) (writing : Bool) (m : Machine)
    → is_size size ≡ true
    → has_one m.tlb m.page_table ≡ true
    → Concludes (unsigned addr) size (translate addr size writing m)
unfolding translate
translate_lands addr size writing m sized one = elim (Bool-cases (misaligned size addr)) [
  | inl odd ↦ rw odd tt
  | inr even ↦ rw even (look_up-Concludes addr size sized even writing m m.tlb m.page_table one)
]
