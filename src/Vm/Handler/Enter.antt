-- ===== src/Vm/Handler/Enter.antt =====
-- `handleIPTMiss`: the page is read into its frame and entered into both tables.
use cs350project.Prelude.{
  ℕ, ◌*◌, ◌<◌, ◌≡◌, refl, sym, ◌∙◌, ap, arith, ◌==◌, ◌&&◌, true, ℤ, pos, negsuc, eqb_ℤ, eqb_ℤ_refl,
  Option, none, some, List, [], ◌∷◌, ◌++◌, Bool-cases, inl, inr, ==_iff,
}
use cs350project.Bitmap.{num_clear, test_bit}
use cs350project.Threads.Queue.{ListElement, append}
use cs350project.Vm.Machine.{with_entry, find_tlb}
use cs350project.Vm.Paging.{
  DiskLocation, swap, executable, neither, ExtendedTranslationEntry, Process, File, Vm, page,
  read_page,
}
use cs350project.Vm.Paging.Tables.{Updated, updates}
use cs350project.Vm.Handler.{
  load_from, read_into, enqueued, resident, present, fill_frame, handle_ipt_miss,
}
use cs350project.Vm.Handler.Invariant.{Framed, is_readable, readable_at, HoldsBut, IsSound, Placed}
use cs350project.Vm.Handler.Evict.{page_of-process}
use cs350project.Vm.Handler.Fill.{Mapped-again, take_frame-Stepped}

read_into-some :
    (f : File) (offset : ℤ) (ppn : ℕ) (vm : Vm)
    → readable_at executable offset ≡ true
    → (memory : ℕ → ℕ) × (read_into f offset ppn vm ≡ some (record vm { memory = memory }))
read_into-some f (negsuc p) ppn vm h = absurd (cc)
read_into-some f (pos p) ppn vm h = let o = read_page f (ppn * 128) (pos p) vm.memory in (_, refl)

load_from-some :
    (location : DiskLocation) (offset : ℤ) (ppn : ℕ) (vm : Vm) (p : Process)
    → vm.processes vm.current ≡ some p
    → readable_at location offset ≡ true
    → (memory : ℕ → ℕ) × (load_from location offset ppn vm ≡ some (record vm { memory = memory }))
load_from-some executable offset ppn vm p hp h =
    let (memory, e) = read_into-some p.program offset ppn vm h in (memory, rw hp e)
load_from-some swap offset ppn vm p hp h = read_into-some vm.swapfile offset ppn vm h
load_from-some neither offset ppn vm p hp h = (vm.memory, refl)

Framed-snoc :
    (es : List ListElement) (e : ListElement) (f : ℕ)
    → e.item ≡ pos f
    → f < 32
    → Framed es
    → Framed (es ++ (e ∷ []))
Framed-snoc [] e f eq lt h = rw eq (lt, tt)
Framed-snoc (x ∷ es) e f eq lt (here, rest) = (here, Framed-snoc es e f eq lt rest)

enqueued-Framed :
    (ppn : ℕ) (vm : Vm)
    → ppn < 32
    → Framed vm.swap_queue.elements
    → Framed (enqueued ppn vm).elements
unfolding append
enqueued-Framed ppn vm lt h = elim (Bool-cases vm.run_with_fifo) [
  | inl fifo ↦ rw fifo (Framed-snoc vm.swap_queue.elements _ ppn refl lt h)
  | inr random ↦ rw random h
]

-- The page `k` of the running process is in the frame `ppn`.
pub record Resident (k : ℤ) (ppn : ℕ) (vm : Vm) : Type 0 where
  pub below : ppn < 32
  pub valid : (vm.ipt ppn).entry.valid ≡ true
  pub virtual : (vm.ipt ppn).entry.virtual_page ≡ k
  pub physical : (vm.ipt ppn).entry.physical_page ≡ pos ppn
  pub owned : (vm.ipt ppn).space_owner ≡ pos vm.current

module _ (k : ℤ) (ppn : ℕ) (vm : Vm) (h : HoldsBut ppn vm) (below : ppn < 32)
    (e : ExtendedTranslationEntry) (processes : ℕ → Option Process)
    (u : Updated (pos vm.current) k (present k ppn) e vm.processes processes) (memory : ℕ → ℕ)
    (fine : is_readable e ≡ true) where
  abbrev entered : Vm
  entered = record vm {
    memory = memory;
    swap_queue = enqueued ppn vm;
    ipt = with_entry vm.ipt ppn (resident k ppn vm.current (vm.ipt ppn));
    processes = processes;
  }

  pages_entered :
      (o' k' : ℤ) (e' : ExtendedTranslationEntry)
      → page vm.processes o' k' ≡ some e'
      → (e2 : ExtendedTranslationEntry) × (page processes o' k' ≡ some e2)
  pages_entered o' k' e' found = elim (Bool-cases (eqb_ℤ (pos vm.current) o' && eqb_ℤ k k')) [
    | inl here ↦ (present k ppn e, u.pages o' k' ∙ rw here refl)
    | inr there ↦ (e', u.pages o' k' ∙ rw there found)
  ]

  Placed-entered :
      (i : ℕ) → i < 32 → (entered.ipt i).entry.valid ≡ true → Placed processes (entered.ipt i)
  Placed-entered i lt v = elim (Bool-cases (ppn == i)) [
    | inl same ↦ rw same (
      present k ppn e,
      u.pages (pos vm.current) k ∙ rw (eqb_ℤ_refl (pos vm.current), eqb_ℤ_refl k) refl,
    )
    | inr other ↦
        let (e', found) = h.placed i lt (ground (arith, other)) (rw other at v) in
        rw other (pages_entered _ _ e' found)
  ]

  entered-IsSound : IsSound entered
  entered-IsSound = record {
    size = h.size;
    sized = h.sized;
    swap_sized = h.swap_sized;
    marked = λ i lt ne. elim (Bool-cases (ppn == i)) [
      | inl same ↦ rw same (ap (test_bit vm.frames) (sym ((==_iff ppn i).0 same)) ∙ h.own below)
      | inr other ↦ rw other (h.marked i lt (ground (arith, other)))
    ];
    own = λ lt. absurd (omega arith);
    at_home = λ i lt ne v. elim (Bool-cases (ppn == i)) [
      | inl same ↦ rw same (ap pos ((==_iff ppn i).0 same))
      | inr other ↦ rw other (h.at_home i lt (ground (arith, other)) (rw other at v))
    ];
    placed = λ i lt ne. Placed-entered i lt;
    coherent = λ j lt v.
        let m = h.coherent j lt v in
        let apart = m.apart in
        Mapped-again ppn 32 vm entered (vm.tlb j) m (λ eq. absurd (omega (arith, eq, m.below)))
          (ground (arith, apart)) refl;
    queued = enqueued-Framed ppn vm below h.queued;
    counted = h.counted;
    readable = λ o' k' e' found. elim (Bool-cases (eqb_ℤ (pos vm.current) o' && eqb_ℤ k k')) [
      | inl here ↦ ground (arith, u.pages o' k', here, found, fine)
      | inr there ↦ h.readable o' k' e' (sym (u.pages o' k' ∙ rw there refl) ∙ found)
    ];
    named = λ o' p' found. let (p, before, same) = u.kept o' p' found in same ∙ h.named o' p before;
  }

  entered-Resident : Resident k ppn entered
  entered-Resident =
      let self : (ppn == ppn) ≡ true = ground arith in
      record {
        below = below;
        valid = rw self refl;
        virtual = rw self refl;
        physical = rw self refl;
        owned = rw self refl;
      }

-- What finding a frame for the page `k` gives.
pub record Ready (k : ℤ) (ppn : ℕ) (vm vm' : Vm) : Type 0 where
  pub sound : IsSound vm'
  pub here : Resident k ppn vm'
  pub current : vm'.current ≡ vm.current
  pub counter : vm'.tlb_counter ≡ vm.tlb_counter
  pub misses : (vpn : ℕ) → find_tlb 4 0 vpn vm.tlb ≡ none → find_tlb 4 0 vpn vm'.tlb ≡ none

fill_frame-Ready :
    (k : ℤ) (ppn : ℕ) (vm : Vm) (e : ExtendedTranslationEntry)
    → HoldsBut ppn vm
    → ppn < 32
    → page vm.processes (pos vm.current) k ≡ some e
    → (vm' : Vm) × (fill_frame k (vm, ppn) ≡ some (vm', ppn)) × Ready k ppn vm vm'
fill_frame-Ready k ppn vm e h below found =
    let (p, hp) = page_of-process k e (vm.processes vm.current) found in
    let fine = h.readable (pos vm.current) k e found in
    let (memory, loaded) = load_from-some e.disk_location e.byte_offset ppn vm p hp fine in
    let (processes, u) = updates (present k ppn) (pos vm.current) k e vm.processes found in
    (
      entered k ppn vm h below e processes u memory fine,
      rw found (rw loaded (rw (u.result) refl)),
      record {
        sound = entered-IsSound k ppn vm h below e processes u memory fine;
        here = entered-Resident k ppn vm h below e processes u memory fine;
        current = refl;
        counter = refl;
        misses = λ vpn miss. miss;
      },
    )

-- A page of the running process that is in no frame gets one.
pub handle_ipt_miss-Ready :
    (rand : ℕ) (k : ℤ) (vm : Vm) (e : ExtendedTranslationEntry)
    → IsSound vm
    → 0 < num_clear vm.swap_map
    → page vm.processes (pos vm.current) k ≡ some e
    → (vm' : Vm) × (ppn : ℕ) × (handle_ipt_miss rand k vm ≡ some (vm', ppn)) × Ready k ppn vm vm'
unfolding handle_ipt_miss
handle_ipt_miss-Ready rand k vm e h room found =
    let (vm1, ppn, taken, below, s) = take_frame-Stepped rand vm h room in
    let (e', found') = s.pages (pos vm.current) k e found in
    let found'' : page vm1.processes (pos vm1.current) k ≡ some e' =
      ap (λ c. page vm1.processes (pos c) k) s.current ∙ found' in
    let (vm', filled, r) = fill_frame-Ready k ppn vm1 e' s.holds below found'' in
    (
      vm',
      ppn,
      rw taken filled,
      record {
        sound = r.sound;
        here = r.here;
        current = r.current ∙ s.current;
        counter = r.counter ∙ s.counter;
        misses = λ vpn miss. r.misses vpn (s.misses vpn miss);
      },
    )
