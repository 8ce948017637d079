-- ===== src/Vm/Handler/Invariant.antt =====
-- What holds between page faults, and what a step of the handler keeps of it.
use cs350project.Prelude.{
  ℕ, ◌<◌, ◌≡◌, ◌≢◌, refl, sym, ◌∙◌, ap, arith, ◌==◌, Bool, true, false, ℤ, pos, negsuc, Option,
  none, some, List, [], ◌∷◌, Bool-cases, inl, inr, ==_iff,
}
use cs350project.Bitmap.{BitMap, test_bit}
use cs350project.Bitmap.Laws.{IsSized}
use cs350project.Threads.Queue.{ListElement}
use cs350project.Vm.Machine.{TranslationEntry, with_entry, find_tlb}
use cs350project.Vm.Paging.{
  DiskLocation, swap, executable, neither, ExtendedTranslationEntry, Process, IptEntry, Vm, page,
}
use cs350project.Vm.Handler.{with_dirty}

-- The page can be read from where the disk has it.
abbrev pub is_position : ℤ → Bool
is_position (pos n) = true
is_position (negsuc n) = false

abbrev pub readable_at : DiskLocation → ℤ → Bool
readable_at neither offset = true
readable_at swap offset = is_position offset
readable_at executable offset = is_position offset

abbrev pub is_readable : ExtendedTranslationEntry → Bool
is_readable e = readable_at e.disk_location e.byte_offset

abbrev pub InFrames : ℤ → Type 0
InFrames (pos f) = f < 32
InFrames (negsuc f) = ⊥

abbrev pub Framed : List ListElement → Type 0
Framed [] = Unit {0}
Framed (e ∷ es) = InFrames e.item × Framed es

abbrev pub Counts : ℤ → Type 0
Counts (pos n) = Unit {0}
Counts (negsuc n) = n ≡ 0

-- The page of a frame is in the page table of its owner.
abbrev pub Placed : (ℕ → Option Process) → IptEntry → Type 0
Placed processes i =
    (e : ExtendedTranslationEntry) × (page processes i.space_owner i.entry.virtual_page ≡ some e)

-- A TLB entry leads to a frame, other than `x`, that the inverted page table gives to the running
-- process for the same page.
pub record Mapped (x : ℕ) (vm : Vm) (e : TranslationEntry) : Type 0 where
  pub frame : ℕ
  pub physical : e.physical_page ≡ pos frame
  pub below : frame < 32
  pub apart : frame ≢ x
  pub taken : (vm.ipt frame).entry.valid ≡ true
  pub same_page : (vm.ipt frame).entry.virtual_page ≡ e.virtual_page
  pub owned : (vm.ipt frame).space_owner ≡ pos vm.current

-- The frame `x` is being given to another page; `x` is 32 for none.
pub record HoldsBut (x : ℕ) (vm : Vm) : Type 0 where
  pub size : vm.frames.num_bits ≡ 32
  pub sized : IsSized vm.frames
  pub swap_sized : IsSized vm.swap_map
  pub marked : (i : ℕ) → i < 32 → i ≢ x → test_bit vm.frames i ≡ (vm.ipt i).entry.valid
  pub own : x < 32 → test_bit vm.frames x ≡ true
  pub at_home :
      (i : ℕ)
      → i < 32
      → i ≢ x
      → (vm.ipt i).entry.valid ≡ true
      → (vm.ipt i).entry.physical_page ≡ pos i
  pub placed :
      (i : ℕ) → i < 32 → i ≢ x → (vm.ipt i).entry.valid ≡ true → Placed vm.processes (vm.ipt i)
  pub coherent : (j : ℕ) → j < 4 → (vm.tlb j).valid ≡ true → Mapped x vm (vm.tlb j)
  pub queued : Framed vm.swap_queue.elements
  pub counted : Counts vm.tlb_counter
  pub readable :
      (o k : ℤ) (e : ExtendedTranslationEntry)
      → page vm.processes o k ≡ some e
      → is_readable e ≡ true
  pub named : (o : ℕ) (p : Process) → vm.processes o ≡ some p → p.space_id ≡ pos o

abbrev pub IsSound : Vm → Type 0
IsSound vm = HoldsBut 32 vm

-- What a step leaves alone, besides what holds.
pub record Stepped (x : ℕ) (vm vm' : Vm) : Type 0 where
  pub holds : HoldsBut x vm'
  pub current : vm'.current ≡ vm.current
  pub counter : vm'.tlb_counter ≡ vm.tlb_counter
  pub pages :
      (o k : ℤ) (e : ExtendedTranslationEntry)
      → page vm.processes o k ≡ some e
      → (e' : ExtendedTranslationEntry) × (page vm'.processes o k ≡ some e')
  pub misses : (vpn : ℕ) → find_tlb 4 0 vpn vm.tlb ≡ none → find_tlb 4 0 vpn vm'.tlb ≡ none

-- Two entries of the inverted page table that differ in their use and dirty bits at most.
pub record Alike (a b : IptEntry) : Type 0 where
  pub owner : b.space_owner ≡ a.space_owner
  pub virtual : b.entry.virtual_page ≡ a.entry.virtual_page
  pub physical : b.entry.physical_page ≡ a.entry.physical_page
  pub valid : b.entry.valid ≡ a.entry.valid

pub with_dirty-Alike :
    (v : ℕ) (d : Bool) (ipt : ℕ → IptEntry) (i : ℕ)
    → Alike (ipt i) (with_entry ipt v (with_dirty d (ipt v)) i)
with_dirty-Alike v d ipt i = elim (Bool-cases (v == i)) [
  | inl same ↦
      let eq : v ≡ i = (==_iff v i).0 same in
      rw same (record {
        owner = ap (λ j. (ipt j).space_owner) eq;
        virtual = ap (λ j. (ipt j).entry.virtual_page) eq;
        physical = ap (λ j. (ipt j).entry.physical_page) eq;
        valid = ap (λ j. (ipt j).entry.valid) eq;
      })
  | inr other ↦ rw other (record { owner = refl; virtual = refl; physical = refl; valid = refl })
]

-- The entries of the inverted page table change in their bits only, and pages stay in their tables.
pub record Gentle (vm vm' : Vm) : Type 0 where
  pub frames : vm'.frames ≡ vm.frames
  pub current : vm'.current ≡ vm.current
  pub counter : vm'.tlb_counter ≡ vm.tlb_counter
  pub queue : vm'.swap_queue ≡ vm.swap_queue
  pub swap_sized : IsSized vm'.swap_map
  pub alike : (i : ℕ) → Alike (vm.ipt i) (vm'.ipt i)
  pub pages :
      (o k : ℤ) (e : ExtendedTranslationEntry)
      → page vm.processes o k ≡ some e
      → (e' : ExtendedTranslationEntry) × (page vm'.processes o k ≡ some e')
  pub readable :
      (o k : ℤ) (e : ExtendedTranslationEntry)
      → page vm'.processes o k ≡ some e
      → is_readable e ≡ true
  pub named : (o : ℕ) (p : Process) → vm'.processes o ≡ some p → p.space_id ≡ pos o

module _ (vm vm' : Vm) (h : IsSound vm) (g : Gentle vm vm') where
  marked_after : (i : ℕ) → i < 32 → test_bit vm'.frames i ≡ (vm'.ipt i).entry.valid
  marked_after i lt =
      ap (λ b. test_bit b i) g.frames ∙ (h.marked i lt (omega arith) ∙ sym ((g.alike i).valid))

  Placed-after :
      (i : ℕ) → i < 32 → (vm'.ipt i).entry.valid ≡ true → Placed vm'.processes (vm'.ipt i)
  Placed-after i lt v =
      let a = g.alike i in
      let (e, found) = h.placed i lt (omega arith) (sym a.valid ∙ v) in
      let (e', found') = g.pages _ _ e found in
      (
        e',
        ap (λ o. page vm'.processes o (vm'.ipt i).entry.virtual_page) a.owner
            ∙ (ap (λ k. page vm'.processes (vm.ipt i).space_owner k) a.virtual ∙ found'),
      )

  -- A TLB entry that is still there, and not of the frame `y`.
  Mapped-after :
      (y : ℕ) (e : TranslationEntry) → (m : Mapped 32 vm e) → m.frame ≢ y → Mapped y vm' e
  Mapped-after y e m apart =
      let a = g.alike m.frame in
      record {
        frame = m.frame;
        physical = m.physical;
        below = m.below;
        apart = apart;
        taken = a.valid ∙ m.taken;
        same_page = a.virtual ∙ m.same_page;
        owned = a.owner ∙ (m.owned ∙ ap pos (sym g.current));
      }

  pub Gentle-Stepped :
      (y : ℕ)
      → (y < 32 → test_bit vm'.frames y ≡ true)
      → ((j : ℕ)
          → j < 4
          → (vm'.tlb j).valid ≡ true
          → (m : Mapped 32 vm (vm'.tlb j)) × (m.frame ≢ y))
      → ((vpn : ℕ) → find_tlb 4 0 vpn vm.tlb ≡ none → find_tlb 4 0 vpn vm'.tlb ≡ none)
      → Stepped y vm vm'
  Gentle-Stepped y own kept misses = record {
    holds = record {
      size = ap (λ (b : BitMap). b.num_bits) g.frames ∙ h.size;
      sized = rw (g.frames) h.sized;
      swap_sized = g.swap_sized;
      marked = λ i lt ne. marked_after i lt;
      own = own;
      at_home = λ i lt ne v.
          (g.alike i).physical ∙ h.at_home i lt (omega arith) (sym ((g.alike i).valid) ∙ v);
      placed = λ i lt ne. Placed-after i lt;
      coherent = λ j lt v. let (m, apart) = kept j lt v in Mapped-after y (vm'.tlb j) m apart;
      queued = rw (g.queue) h.queued;
      counted = rw (g.counter) h.counted;
      readable = g.readable;
      named = g.named;
    };
    current = g.current;
    counter = g.counter;
    pages = g.pages;
    misses = misses;
  }

pub Alike-trans : (a b c : IptEntry) → Alike a b → Alike b c → Alike a c
Alike-trans a b c p q = record {
  owner = q.owner ∙ p.owner;
  virtual = q.virtual ∙ p.virtual;
  physical = q.physical ∙ p.physical;
  valid = q.valid ∙ p.valid;
}

pub Gentle-trans : (a b c : Vm) → Gentle a b → Gentle b c → Gentle a c
Gentle-trans a b c p q = record {
  frames = q.frames ∙ p.frames;
  current = q.current ∙ p.current;
  counter = q.counter ∙ p.counter;
  queue = q.queue ∙ p.queue;
  swap_sized = q.swap_sized;
  alike = λ i. Alike-trans _ _ _ (p.alike i) (q.alike i);
  pages = λ o k e found. let (e', found') = p.pages o k e found in q.pages o k e' found';
  readable = q.readable;
  named = q.named;
}
