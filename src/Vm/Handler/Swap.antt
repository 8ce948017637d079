-- ===== src/Vm/Handler/Swap.antt =====
-- The contents of a written page survive its eviction.
use cs350project.Prelude.{
  ℕ, zero, suc, ◌+◌, ◌*◌, ◌-◌, ◌<◌, ◌≤◌, ◌≡◌, ◌≢◌, ◌⊎◌, inl, inr, refl, sym, ◌∙◌, ap, arith, ◌==◌,
  ◌&&◌, Bool, true, false, ℤ, pos, eqb_ℤ, eqb_ℤ_iff, eqb_ℤ_refl, Option, some, Bool-cases, and_then,
}
use cs350project.Bitmap.{num_clear, mark_bit, test_bit}
use cs350project.Bitmap.Search.{find_takes}
use cs350project.Vm.Machine.{TranslationEntry}
use cs350project.Vm.Paging.{
  ExtendedTranslationEntry, Process, File, Vm, process_at, page, read_page, write_page,
}
use cs350project.Vm.Paging.Tables.{updates}
use cs350project.Vm.Handler.{
  drop_hit, drop_page, dropped, save_at, save_frame, swapped_out, absent, forget_page, evict,
  load_from,
}
use cs350project.Vm.Handler.Invariant.{IsSound, Placed, with_dirty-Alike}
use cs350project.Vm.Handler.Evict.{page_of-process, own_id}

-- The page of the frame was written since it was loaded: the inverted page table says so, or a TLB
-- entry of the page.
abbrev pub Written : ℕ → Vm → Type 0
Written v vm =
    ((vm.ipt v).entry.dirty ≡ true)
    ⊎ ((j : ℕ) × (j < 4)
        × ((vm.tlb j).valid ≡ true)
        × ((vm.tlb j).dirty ≡ true)
        × ((vm.tlb j).virtual_page ≡ (vm.ipt v).entry.virtual_page))

module _ (k : ℤ) (owned : Bool) where
  drop_hit-dirty :
      (b : Bool) (i : ℕ) (tlb : ℕ → TranslationEntry) (dirty : Bool)
      → dirty ≡ true
      → (drop_hit b i tlb dirty).1 ≡ true
  drop_hit-dirty true i tlb dirty h = ground (arith, h)
  drop_hit-dirty false i tlb dirty h = h

  drop_page-dirty :
      (n i : ℕ) (tlb : ℕ → TranslationEntry) (dirty : Bool)
      → dirty ≡ true
      → (drop_page n i k owned tlb dirty).1 ≡ true
  unfolding drop_page
  drop_page-dirty zero i tlb dirty h = h
  drop_page-dirty (suc n) i tlb dirty h =
      let b = eqb_ℤ (tlb i).virtual_page k && (owned && (tlb i).valid) in
      drop_page-dirty n (i + 1) (drop_hit b i tlb dirty).0 (drop_hit b i tlb dirty).1
        (drop_hit-dirty b i tlb dirty h)

  drop_hit-other :
      (b : Bool) (i j : ℕ) (tlb : ℕ → TranslationEntry) (dirty : Bool)
      → (i == j) ≡ false
      → (drop_hit b i tlb dirty).0 j ≡ tlb j
  drop_hit-other true i j tlb dirty h = rw h refl
  drop_hit-other false i j tlb dirty h = refl

  -- The loop collects the dirty bit of each entry of the page.
  drop_page-collects :
      (n i j : ℕ) (e : TranslationEntry) (tlb : ℕ → TranslationEntry) (dirty : Bool)
      → tlb j ≡ e
      → i ≤ j
      → j < i + n
      → (eqb_ℤ e.virtual_page k && (owned && e.valid)) ≡ true
      → e.dirty ≡ true
      → (drop_page n i k owned tlb dirty).1 ≡ true
  unfolding drop_page
  drop_page-collects zero i j e tlb dirty at_j lo hi hit wet = absurd (omega arith)
  drop_page-collects (suc n) i j e tlb dirty at_j lo hi hit wet =
      let b = eqb_ℤ (tlb i).virtual_page k && (owned && (tlb i).valid) in
      elim (Bool-cases (i == j)) [
        | inl same ↦
            let here : tlb i ≡ e = ap tlb (ground (arith, same)) ∙ at_j in
            let hit_i : b ≡ true =
              ap (λ (e : TranslationEntry). eqb_ℤ e.virtual_page k && (owned && e.valid)) here
              ∙ hit in
            let wet_i : (tlb i).dirty ≡ true = ap (λ (e : TranslationEntry). e.dirty) here ∙ wet in
            drop_page-dirty n (i + 1) (drop_hit b i tlb dirty).0 (drop_hit b i tlb dirty).1
              (rw hit_i (ground (arith, wet_i)))
        | inr other ↦
            drop_page-collects n (i + 1) j e (drop_hit b i tlb dirty).0 (drop_hit b i tlb dirty).1
              (drop_hit-other b i j tlb dirty other ∙ at_j) (ground (arith, other)) (omega arith)
              hit wet
      ]

Written-dirty :
    (v : ℕ) (vm : Vm) (owned : Bool)
    → owned ≡ true
    → Written v vm
    → (drop_page 4 0 (vm.ipt v).entry.virtual_page owned vm.tlb (vm.ipt v).entry.dirty).1 ≡ true
Written-dirty v vm owned o (inl wet) = drop_page-dirty _ owned 4 0 vm.tlb _ wet
Written-dirty v vm owned o (inr (j, lt, valid, wet, same)) =
    let k = (vm.ipt v).entry.virtual_page in
    let hit : (eqb_ℤ (vm.tlb j).virtual_page k && (owned && (vm.tlb j).valid)) ≡ true =
      ground (arith, valid, o, (eqb_ℤ_iff (vm.tlb j).virtual_page k).1 same) in
    drop_page-collects k owned 4 0 j (vm.tlb j) vm.tlb (vm.ipt v).entry.dirty refl (omega arith)
      (omega arith) hit wet

-- A page read back from the place that it was just written to.
page_back :
    (file : File) (memory : ℕ → ℕ) (v l f a : ℕ)
    → a < 128
    → and_then
        (read_page (write_page file memory (v * 128) (128 * l)) (f * 128) (pos (128 * l)) memory)
        (λ m. some (m (f * 128 + a)))
      ≡ some (memory (v * 128 + a))
page_back file memory v l f a lt =
    let shift : f * 128 + a - f * 128 ≡ a = omega arith in
    let back : 128 * l + a - 128 * l ≡ a = omega arith in ground (arith, shift, back)

others_stay :
    (file : File) (memory : ℕ → ℕ) (v l l' a : ℕ)
    → l ≢ l'
    → a < 128
    → 128 * l' + a < file.size
    → (write_page file memory (v * 128) (128 * l)).bytes (128 * l' + a) ≡ file.bytes (128 * l' + a)
others_stay file memory v l l' a ne lt fits = ground arith

-- Where an evicted page went.
pub record Saved (v : ℕ) (vm vm' : Vm) : Type 0 where
  pub entry : ExtendedTranslationEntry
  pub listed : page vm'.processes (vm.ipt v).space_owner (vm.ipt v).entry.virtual_page ≡ some entry
  -- Loaded into any frame, the page has the bytes that it had.
  pub returns :
      (f a : ℕ)
      → a < 128
      → and_then
          (load_from entry.disk_location entry.byte_offset f vm')
          (λ back. some (back.memory (f * 128 + a)))
        ≡ some (vm.memory (v * 128 + a))
  pub others :
      (l a : ℕ)
      → test_bit vm.swap_map l ≡ true
      → a < 128
      → 128 * l + a < vm.swapfile.size
      → vm'.swapfile.bytes (128 * l + a) ≡ vm.swapfile.bytes (128 * l + a)

module _ (vm : Vm) (v : ℕ) (h : IsSound vm) (placed : Placed vm.processes (vm.ipt v))
    (room : 0 < num_clear vm.swap_map) (tlb : ℕ → TranslationEntry) where
  abbrev wet : Vm
  wet = dropped v vm (tlb, true)

  same_page :
      (processes : ℕ → Option Process)
      → page processes (wet.ipt v).space_owner (wet.ipt v).entry.virtual_page
        ≡ page processes (vm.ipt v).space_owner (vm.ipt v).entry.virtual_page
  same_page processes =
      let a = with_dirty-Alike v true vm.ipt v in
      ap (λ o. page processes o (wet.ipt v).entry.virtual_page) a.owner
      ∙ ap (λ k. page processes (vm.ipt v).space_owner k) a.virtual

  saved :
      (vm' : Vm) × (and_then (save_frame v wet) (forget_page v) ≡ some (vm', v)) × Saved v vm vm'
  unfolding save_frame
  saved =
      let (l, t) = find_takes vm.swap_map h.swap_sized room in
      let (e, found) = placed in
      let o = (wet.ipt v).space_owner in
      let k = (wet.ipt v).entry.virtual_page in
      let (ps1, u1) = updates (swapped_out l) o k e vm.processes (same_page vm.processes ∙ found) in
      let there : page ps1 o k ≡ some (swapped_out l e) =
        u1.pages o k ∙ rw (eqb_ℤ_refl o, eqb_ℤ_refl k) refl in
      let (ps2, u2) = updates absent o k (swapped_out l e) ps1 there in
      let gone : page ps2 o k ≡ some (absent (swapped_out l e)) =
        u2.pages o k ∙ rw (eqb_ℤ_refl o, eqb_ℤ_refl k) refl in
      let file = write_page vm.swapfile vm.memory (v * 128) (128 * l) in
      let s : Vm = record wet {
        swap_map = mark_bit vm.swap_map l;
        swapfile = file;
        processes = ps1;
      } in
      let self : (v == v) ≡ true = ground arith in
      let kept : save_frame v wet ≡ some s = rw self (
        ap (save_at v wet) t.result
        ∙ ap
            (λ q. and_then q λ ps.
              some
                (record wet { swap_map = mark_bit vm.swap_map l; swapfile = file; processes = ps }))
            u1.result) in
      (
        record s { processes = ps2 },
        ap (λ q. and_then q (forget_page v)) kept
            ∙ ap (λ q. and_then q λ ps. some (record s { processes = ps }, v)) u2.result,
        record {
          entry = absent (swapped_out l e);
          listed = sym (same_page ps2) ∙ gone;
          returns = λ f a lt. page_back vm.swapfile vm.memory v l f a lt;
          others = λ l' a marked lt fits.
              others_stay vm.swapfile vm.memory v l l' a
                (λ eq. absurd (ground (arith, t.was_clear, marked, ap (test_bit vm.swap_map) eq)))
                lt fits;
        },
      )

-- In a sound state with room in the swap file the eviction of a written page succeeds. Its entry then
-- says where it is: loaded from there into any frame it has the bytes that it had. Nothing changes in
-- the swap file at the places that its bitmap had marked.
pub evicted_page_returns :
    (vm : Vm) (v : ℕ)
    → IsSound vm
    → v < 32
    → (vm.ipt v).entry.valid ≡ true
    → Written v vm
    → 0 < num_clear vm.swap_map
    → (vm' : Vm) × (evict v vm ≡ some (vm', v)) × Saved v vm vm'
unfolding evict
evicted_page_returns vm v h below valid written room =
    let placed = h.placed v below (omega arith) valid in
    let k = (vm.ipt v).entry.virtual_page in
    let (p, hp) =
      page_of-process k placed.0 (process_at vm.processes (vm.ipt v).space_owner) placed.1 in
    let owner = own_id vm.processes (vm.ipt v).space_owner p hp h.named in
    let owned = eqb_ℤ (vm.ipt v).space_owner p.space_id in
    let (tlb, dirty) = drop_page 4 0 k owned vm.tlb (vm.ipt v).entry.dirty in
    let collected : dirty ≡ true = Written-dirty v vm owned owner written in
    let (vm', went, s) = saved vm v h placed room tlb in
    (
      vm',
      rw hp (
          ap (λ d. and_then (save_frame v (dropped v vm (tlb, d))) (forget_page v)) collected
          ∙ went),
      s,
    )
