-- ===== src/Vm/Machine/Served.antt =====
-- ReadMem and WriteMem of machine/translate.cc fail no assertion on a machine with a TLB or a page table,
-- and it stays one.
use cs350project.Prelude.{
  ℕ, ◌≡◌, refl, arith, Bool, true, false, Bool-cases, inl, inr, ◌==◌, if_both, ℤ, Option, none,
  some, List, get_elem?, ◌%◌, ◌/◌,
}
use cs350project.Vm.Machine.{
  TranslationEntry, Machine, unsigned, Translated, translated, raised, misaligned, find_tlb,
  conclude, by_tlb, by_table, look_up, translate, load, store, read_at, read_mem, write_at,
  write_mem,
}
use cs350project.Vm.Machine.Access.{has_one, is_size, Concludes, translate_lands}

abbrev pub HasOne : Machine → Type 0
HasOne m = has_one m.tlb m.page_table ≡ true

Kept : {A : Type 0} → Option (Machine × A) → Type 0
Kept none = Unit {0}
Kept (some (m, a)) = HasOne m

conclude-Kept :
    (o : Option Translated) (m m' : Machine) → HasOne m → HasOne m' → Kept (conclude o m m')
unfolding Kept
conclude-Kept none m m' h h' = tt
conclude-Kept (some (translated a)) m m' h h' = h'
conclude-Kept (some (raised x)) m m' h h' = h

look_up-Kept :
    (writing : Bool) (u size : ℕ) (m : Machine) (t : Option (ℕ → TranslationEntry))
    (p : Option (List TranslationEntry))
    → m.tlb ≡ t
    → m.page_table ≡ p
    → has_one t p ≡ true
    → Kept (look_up writing u size m t p)
unfolding Kept
look_up-Kept writing u size m none none et ep h = tt
look_up-Kept writing u size m (some tlb) (some table) et ep h = tt
look_up-Kept writing u size m none (some table) et ep h = go (get_elem? table (u / 128))
  where
    here : HasOne m
    here = rw et (rw ep refl)

    go : (o : Option TranslationEntry) → Kept (by_table writing (u % 128) size (u / 128) table m o)
    go none = here
    go (some e) = if_both Kept e.valid _ _ (conclude-Kept _ m _ here (rw et refl)) here
look_up-Kept writing u size m (some tlb) none et ep h = go (find_tlb 4 0 (u / 128) tlb)
  where
    here : HasOne m
    here = rw et (rw ep refl)

    go : (o : Option ℕ) → Kept (by_tlb writing (u % 128) size tlb m o)
    go none = here
    go (some i) = conclude-Kept _ m _ here (rw ep refl)

translate-Kept :
    (addr : ℤ) (size : ℕ) (writing : Bool) (m : Machine)
    → HasOne m
    → Kept (translate addr size writing m)
unfolding translate Kept
translate-Kept addr size writing m h =
    if_both Kept (misaligned size addr) _ _ h
      (look_up-Kept writing (unsigned addr) size m m.tlb m.page_table refl refl h)

-- The access returns, on such a machine again.
unfoldable pub Served : {A : Type 0} → Option (Machine × A) → Type 0
Served none = ⊥
Served (some (m, a)) = HasOne m

served : (u size : ℕ) (o : Option (Machine × Translated)) → Concludes u size o → Kept o → Served o
unfolding Kept Served
served u size none c k = c
served u size (some (m, t)) c k = k

read_at-Served :
    (now size : ℕ) (o : Option (Machine × Translated))
    → is_size size ≡ true
    → Served o
    → Served (read_at now size o)
unfolding Served load
read_at-Served now size none sized h = h
read_at-Served now size (some (m, raised x)) sized h = h
read_at-Served now size (some (m, translated a)) sized h = elim (Bool-cases (size == 1)) [
  | inl byte ↦ rw byte h
  | inr wide ↦ elim (Bool-cases (size == 2)) [
    | inl half ↦ rw wide (rw half h)
    | inr full ↦
        let word : (size == 4) ≡ true = ground (arith, sized, wide, full) in
        rw wide (rw full (rw word h))
  ]
]

pub read_mem-Served :
    (now : ℕ) (addr : ℤ) (size : ℕ) (m : Machine)
    → is_size size ≡ true
    → HasOne m
    → Served (read_mem now addr size m)
unfolding read_mem
read_mem-Served now addr size m sized h = read_at-Served now size _ sized (
    served (unsigned addr) size _ (translate_lands addr size false m sized h)
      (translate-Kept addr size false m h))

write_at-Served :
    (now size : ℕ) (v : ℤ) (o : Option (Machine × Translated))
    → is_size size ≡ true
    → Served o
    → Served (write_at now size v o)
unfolding Served store
write_at-Served now size v none sized h = h
write_at-Served now size v (some (m, raised x)) sized h = h
write_at-Served now size v (some (m, translated a)) sized h = rw sized h

pub write_mem-Served :
    (now : ℕ) (addr : ℤ) (size : ℕ) (v : ℤ) (m : Machine)
    → is_size size ≡ true
    → HasOne m
    → Served (write_mem now addr size v m)
unfolding write_mem
write_mem-Served now addr size v m sized h = write_at-Served now size v _ sized (
    served (unsigned addr) size _ (translate_lands addr size true m sized h)
      (translate-Kept addr size true m h))
