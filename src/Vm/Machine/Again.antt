-- ===== src/Vm/Machine/Again.antt =====
-- What `ReadMem` finds after `WriteMem`.
use cs350project.Prelude.{
  ℕ, ◌/◌, ◌%◌, ◌≡◌, refl, sym, arith, ◌==◌, true, false, ℤ, Option, none, some, List, get_elem?,
  set, inl, inr, Bool-cases, ◌∙◌, ap, subst, lt_length_of_get, get_elem?-set_self,
}
use cs350project.Vm.Machine.{
  TranslationEntry, Machine, Translated, translated, raised, unsigned, misaligned, find_tlb,
  touched, check_entry, conclude, by_tlb, by_table, look_up, translate, load, store, Outcome, ok,
  fault, read_at, read_mem, stored, write_at, write_mem, with_entry,
}
use cs350project.Vm.Machine.Find.{find_tlb-cong, hits}
use cs350project.Vm.Machine.Bytes.{narrowed, load-store}

-- An entry that a write was checked against serves a read.
check_entry-touched :
    (offset size a : ℕ) (e : TranslationEntry)
    → check_entry true offset size e ≡ some (translated a)
    → check_entry false offset size (touched true e) ≡ some (translated a)
unfolding check_entry
check_entry-touched offset size a e h = ground (arith, h)

conclude-translated :
    (o : Option Translated) (m m' m1 : Machine) (a : ℕ)
    → conclude o m m' ≡ some (m1, translated a)
    → (o ≡ some (translated a)) × (m' ≡ m1)
conclude-translated none m m' m1 a h = absurd (cc)
conclude-translated (some (translated b)) m m' m1 a h = ground (arith, h)
conclude-translated (some (raised x)) m m' m1 a h = absurd (cc)

hits-touched :
    (tlb : ℕ → TranslationEntry) (vpn i j : ℕ)
    → hits vpn (tlb j) ≡ hits vpn (with_entry tlb i (touched true (tlb i)) j)
hits-touched tlb vpn i j = elim (Bool-cases (i == j)) [
  | inl same ↦ let e : i ≡ j = ground (arith, same) in rw same (ap (λ k. hits vpn (tlb k)) (sym e))
  | inr other ↦ rw other refl
]

-- A translation for a read succeeds with the same address.
abbrev Repeats : ℕ → ℕ → ℕ → Machine → Type 0
Repeats u size a m =
    (m' : Machine) × (look_up false u size m m.tlb m.page_table ≡ some (m', translated a))
    × (m'.memory ≡ m.memory)

module _ (u size a : ℕ) (m2 : Machine) where
  Repeats-by :
      (t : Option (ℕ → TranslationEntry)) (p : Option (List TranslationEntry))
      → m2.tlb ≡ t
      → m2.page_table ≡ p
      → (m' : Machine) × (look_up false u size m2 t p ≡ some (m', translated a))
        × (m'.memory ≡ m2.memory)
      → Repeats u size a m2
  Repeats-by t p et ep h =
      let P = λ (t : Option (ℕ → TranslationEntry)) (p : Option (List TranslationEntry)).
        (m' : Machine) × (look_up false u size m2 t p ≡ some (m', translated a))
        × (m'.memory ≡ m2.memory) in
      subst (λ t. P t m2.page_table) (sym et) (subst (λ p. P t p) (sym ep) h)

  Repeats-tlb :
      (tlb : ℕ → TranslationEntry) (i : ℕ)
      → find_tlb 4 0 (u / 128) tlb ≡ some i
      → check_entry true (u % 128) size (tlb i) ≡ some (translated a)
      → m2.tlb ≡ some (with_entry tlb i (touched true (tlb i)))
      → m2.page_table ≡ none
      → Repeats u size a m2
  Repeats-tlb tlb i found checked t p =
      let tlb' = with_entry tlb i (touched true (tlb i)) in
      let same : tlb' i ≡ touched true (tlb i) = ground arith in
      let found' : find_tlb 4 0 (u / 128) tlb' ≡ some i =
        sym (find_tlb-cong 4 0 (u / 128) tlb tlb' (hits-touched tlb (u / 128) i)) ∙ found in
      Repeats-by (some tlb') none t p (
        record m2 { tlb = some (with_entry tlb' i (touched false (tlb' i))) },
        rw found' (
            rw
              (ap (check_entry false (u % 128) size) same
                ∙ check_entry-touched (u % 128) size a (tlb i) checked)
              refl),
        refl,
      )

  Repeats-table :
      (table : List TranslationEntry) (e : TranslationEntry)
      → get_elem? table (u / 128) ≡ some e
      → e.valid ≡ true
      → check_entry true (u % 128) size e ≡ some (translated a)
      → m2.tlb ≡ none
      → m2.page_table ≡ some (set table (u / 128) (touched true e))
      → Repeats u size a m2
  Repeats-table table e found valid checked t p =
      let table' = set table (u / 128) (touched true e) in
      let found' : get_elem? table' (u / 128) ≡ some (touched true e) =
        get_elem?-set_self table (u / 128) _ (lt_length_of_get table (u / 128) e found) in
      Repeats-by none (some table') t p (
        record m2 { page_table = some (set table' (u / 128) (touched false (touched true e))) },
        rw found' (rw (check_entry-touched (u % 128) size a e checked) (ground (arith, valid))),
        refl,
      )

module _ (u size a : ℕ) (m m1 m2 : Machine) (t : m2.tlb ≡ m1.tlb)
    (q : m2.page_table ≡ m1.page_table) where
  again_tlb :
      (tlb : ℕ → TranslationEntry) (o : Option ℕ)
      → find_tlb 4 0 (u / 128) tlb ≡ o
      → m.page_table ≡ none
      → by_tlb true (u % 128) size tlb m o ≡ some (m1, translated a)
      → Repeats u size a m2
  again_tlb tlb none f p h = absurd (cc)
  again_tlb tlb (some i) f p h =
      let (checked, same) = conclude-translated _ _ _ m1 a h in
      Repeats-tlb u size a m2 tlb i f checked (t ∙ ap (λ (m : Machine). m.tlb) (sym same))
        (q ∙ (ap (λ (m : Machine). m.page_table) (sym same) ∙ p))

  again_table :
      (table : List TranslationEntry) (o : Option TranslationEntry)
      → get_elem? table (u / 128) ≡ o
      → m.tlb ≡ none
      → by_table true (u % 128) size (u / 128) table m o ≡ some (m1, translated a)
      → Repeats u size a m2
  again_table table none f p h = absurd (cc)
  again_table table (some e) f p h = elim (Bool-cases e.valid) [
    | inl valid ↦
        let (checked, same) =
          conclude-translated (check_entry true (u % 128) size e) m
            (record m { page_table = some (set table (u / 128) (touched true e)) }) m1 a
            (ground (arith, valid, h)) in
        Repeats-table u size a m2 table e f valid checked
          (t ∙ (ap (λ (m : Machine). m.tlb) (sym same) ∙ p))
          (q ∙ ap (λ (m : Machine). m.page_table) (sym same))
    | inr invalid ↦ absurd (ground (arith, invalid, h))
  ]

  look_up-Repeats :
      (tlb : Option (ℕ → TranslationEntry)) (table : Option (List TranslationEntry))
      → m.tlb ≡ tlb
      → m.page_table ≡ table
      → look_up true u size m tlb table ≡ some (m1, translated a)
      → Repeats u size a m2
  look_up-Repeats none none et ep h = absurd (cc)
  look_up-Repeats none (some table) et ep h = again_table table _ refl et h
  look_up-Repeats (some tlb) none et ep h = again_tlb tlb _ refl ep h
  look_up-Repeats (some tlb) (some table) et ep h = absurd (cc)

-- A translation for a write that succeeded, on the parts of the machine that it changes.
translate-Repeats :
    (addr : ℤ) (size a : ℕ) (m m1 m2 : Machine)
    → translate addr size true m ≡ some (m1, translated a)
    → m2.tlb ≡ m1.tlb
    → m2.page_table ≡ m1.page_table
    → (m' : Machine) × (translate addr size false m2 ≡ some (m', translated a))
      × (m'.memory ≡ m2.memory)
unfolding translate
translate-Repeats addr size a m m1 m2 h t q = elim (Bool-cases (misaligned size addr)) [
  | inl odd ↦ absurd (ground (arith, odd, h))
  | inr even ↦ rw even (
      look_up-Repeats (unsigned addr) size a m m1 m2 t q m.tlb m.page_table refl refl
        (rw even at h))
]

write_at-ok :
    (now size : ℕ) (v : ℤ) (m' : Machine) (o : Option (Machine × Translated))
    → write_at now size v o ≡ some (m', ok tt)
    → (m1 : Machine) × (a : ℕ) × (o ≡ some (m1, translated a))
      × (stored now a m1 (store size a v m1.memory) ≡ some (m', ok tt))
write_at-ok now size v m' none h = absurd (cc)
write_at-ok now size v m' (some (m1, raised x)) h = absurd (cc)
write_at-ok now size v m' (some (m1, translated a)) h = (m1, a, refl, h)

stored-ok :
    (now a : ℕ) (m1 m' : Machine) (o : Option (ℕ → ℕ))
    → stored now a m1 o ≡ some (m', ok tt)
    → (o ≡ some m'.memory) × (m'.tlb ≡ m1.tlb) × (m'.page_table ≡ m1.page_table)
stored-ok now a m1 m' none h = absurd (cc)
stored-ok now a m1 m' (some memory) h = ground (arith, h)

-- What a read returns of an outcome.
abbrev pub value_read : Option (Machine × Outcome ℤ) → Option ℤ
value_read none = none
value_read (some (m, fault x)) = none
value_read (some (m, ok v)) = some v

read_at-value :
    (now size a : ℕ) (m : Machine) (v : ℤ)
    → load size a m.memory ≡ some v
    → value_read (read_at now size (some (m, translated a))) ≡ some v
read_at-value now size a m v h = rw h refl

-- A `ReadMem` of the address and size of a `WriteMem` that succeeded succeeds, and returns what the
-- size keeps of the value: the sign-extended byte, the unsigned half word, or the word.
pub read_mem-write_mem :
    (now now' size : ℕ) (addr v : ℤ) (m m' : Machine)
    → write_mem now addr size v m ≡ some (m', ok tt)
    → value_read (read_mem now' addr size m') ≡ some (narrowed size v)
unfolding write_mem read_mem
read_mem-write_mem now now' size addr v m m' h =
    let (m1, a, went, kept) = write_at-ok now size v m' _ h in
    let (memory, t, q) = stored-ok now a m1 m' _ kept in
    let (m2, again, same) = translate-Repeats addr size a m m1 m' went t q in
    let loaded = load-store size a v m1.memory m'.memory memory in
    rw again (read_at-value now' size a m2 (narrowed size v) (ap (load size a) same ∙ loaded))
