-- ===== src/Vm/Paging/Tables.antt =====
-- The page tables under one update.
use cs350project.Prelude.{
  ℕ, ◌≡◌, refl, sym, arith, ◌==◌, ◌&&◌, if◌then◌else◌, ℤ, pos, negsuc, eqb_ℤ, at_ℤ, Option, none,
  some, List, get_elem?, set, ◌∙◌, ap, Bool-cases, inl, inr, get_elem?-set_self, get_elem?-set_ne,
  lt_length_of_get, ==_iff,
}
use cs350project.Vm.Machine.{with_entry}
use cs350project.Vm.Paging.{ExtendedTranslationEntry, Process, page, update_page}

set-get :
    (xs : List ExtendedTranslationEntry) (k j : ℕ) (e e' : ExtendedTranslationEntry)
    → get_elem? xs k ≡ some e
    → get_elem? (set xs k e') j ≡ (if k == j then some e' else get_elem? xs j)
set-get xs k j e e' h = elim (Bool-cases (k == j)) [
  | inl same ↦
      let eq : k ≡ j = (==_iff k j).0 same in
      rw same (
        ap (λ i. get_elem? (set xs k e') i) (sym eq)
        ∙ get_elem?-set_self xs k e' (lt_length_of_get xs k e h))
  | inr other ↦ rw other (get_elem?-set_ne xs e' λ eq. ground (arith, other, eq))
]

-- What an update does: one entry changes, and the processes keep their number and program.
pub record Updated (o k : ℤ) (f : ExtendedTranslationEntry → ExtendedTranslationEntry)
    (e : ExtendedTranslationEntry) (processes processes' : ℕ → Option Process) : Type 0 where
  pub result : update_page o k f processes ≡ some processes'
  pub pages :
      (o' k' : ℤ)
      → page processes' o' k'
        ≡ (if eqb_ℤ o o' && eqb_ℤ k k' then some (f e) else page processes o' k')
  pub kept :
      (o' : ℕ) (p' : Process)
      → processes' o' ≡ some p'
      → (p : Process) × (processes o' ≡ some p) × (p'.space_id ≡ p.space_id)

row_after :
    (xs : List ExtendedTranslationEntry) (k : ℕ) (k' : ℤ) (e e' : ExtendedTranslationEntry)
    → get_elem? xs k ≡ some e
    → at_ℤ (set xs k e') k' ≡ (if eqb_ℤ (pos k) k' then some e' else at_ℤ xs k')
row_after xs k (pos k') e e' h = set-get xs k k' e e' h
row_after xs k (negsuc k') e e' h = refl

pages_after :
    (o k : ℕ) (p : Process) (e e' : ExtendedTranslationEntry) (processes : ℕ → Option Process)
    → processes o ≡ some p
    → get_elem? p.page_table k ≡ some e
    → (o' k' : ℤ)
    → page (with_entry processes o (some (record p { page_table = set p.page_table k e' }))) o' k'
      ≡ (if eqb_ℤ (pos o) o' && eqb_ℤ (pos k) k' then some e' else page processes o' k')
pages_after o k p e e' processes hp he (negsuc o') k' = refl
pages_after o k p e e' processes hp he (pos o') k' = elim (Bool-cases (o == o')) [
  | inl same ↦
      let hp' : processes o' ≡ some p = ap processes (sym ((==_iff o o').0 same)) ∙ hp in
      rw (same, hp') (row_after p.page_table k k' e e' he)
  | inr other ↦ rw other refl
]

kept_after :
    (o : ℕ) (p q : Process) (processes : ℕ → Option Process)
    → processes o ≡ some p
    → q.space_id ≡ p.space_id
    → (o' : ℕ) (p' : Process) → with_entry processes o (some q) o' ≡ some p'
    → (p : Process) × (processes o' ≡ some p) × (p'.space_id ≡ p.space_id)
kept_after o p q processes hp same_id o' p' h = elim (Bool-cases (o == o')) [
  | inl same ↦
      let hp' : processes o' ≡ some p = ap processes (sym ((==_iff o o').0 same)) ∙ hp in
      let found : q ≡ p' = ground (arith, rw same at h) in
      (p, hp', ap (λ (r : Process). r.space_id) (sym found) ∙ same_id)
  | inr other ↦ (p', rw other at h, refl)
]

module _ (f : ExtendedTranslationEntry → ExtendedTranslationEntry) where
  updates_found :
      (o k : ℕ) (p : Process) (e : ExtendedTranslationEntry) (processes : ℕ → Option Process)
      → processes o ≡ some p
      → get_elem? p.page_table k ≡ some e
      → (processes' : ℕ → Option Process) × Updated (pos o) (pos k) f e processes processes'
  unfolding update_page
  updates_found o k p e processes hp he =
      let p' : Process = record p { page_table = set p.page_table k (f e) } in
      (
        with_entry processes o (some p'),
        record {
          result = rw hp (rw he refl);
          pages = pages_after o k p e (f e) processes hp he;
          kept = kept_after o p p' processes hp refl;
        },
      )

  -- An update of an entry that is there succeeds.
  pub updates :
      (o k : ℤ) (e : ExtendedTranslationEntry) (processes : ℕ → Option Process)
      → page processes o k ≡ some e
      → (processes' : ℕ → Option Process) × Updated o k f e processes processes'
  updates (negsuc o) k e processes h = absurd (cc)
  updates (pos o) k e processes h = go (processes o) refl k h
    where
      go :
          (q : Option Process)
          → processes o ≡ q
          → (k : ℤ) → page processes (pos o) k ≡ some e
          → (processes' : ℕ → Option Process) × Updated (pos o) k f e processes processes'
      go none hp k h = absurd (ground (arith, hp, h))
      go (some p) hp (negsuc k) h = absurd (ground (arith, hp, h))
      go (some p) hp (pos k) h = updates_found o k p e processes hp (rw hp at h)
