-- ===== src/Vm/Handler/Fill.antt =====
-- Where a frame for a new page comes from: a free one of the bitmap, or the victim of an eviction.
use cs350project.Prelude.{
  ℕ, ◌%◌, ◌<◌, ◌≡◌, ◌≢◌, refl, sym, ◌∙◌, ap, arith, ◌==◌, true, false, if◌then◌else◌, ℤ, pos,
  negsuc, some, List, [], ◌∷◌, Bool-cases, inl, inr,
}
use cs350project.Bitmap.{find, num_clear, mark_bit, test_bit}
use cs350project.Bitmap.Laws.{mark_bit-IsSized, test_bit-mark_bit}
use cs350project.Bitmap.Search.{find_takes, find_full, mark_bit-num_bits}
use cs350project.Bitmap.Fresh.{all_set}
use cs350project.Threads.Queue.{ListElement, Queue, remove, sorted_remove}
use cs350project.Vm.Machine.{TranslationEntry}
use cs350project.Vm.Paging.{IptEntry, Vm}
use cs350project.Vm.Handler.{choose_victim, handle_memory_full, take_frame, item_of}
use cs350project.Vm.Handler.Invariant.{InFrames, Framed, IsSound, Mapped, Stepped}
use cs350project.Vm.Handler.Evict.{evict-Stepped}

-- A TLB entry is mapped as before where the inverted page table is as before.
pub Mapped-again :
    (x y : ℕ) (vm vm' : Vm) (e : TranslationEntry) (m : Mapped x vm e)
    → m.frame ≢ y
    → vm'.ipt m.frame ≡ vm.ipt m.frame
    → vm'.current ≡ vm.current
    → Mapped y vm' e
Mapped-again x y vm vm' e m apart same cur = record {
  frame = m.frame;
  physical = m.physical;
  below = m.below;
  apart = apart;
  taken = ap (λ (i : IptEntry). i.entry.valid) same ∙ m.taken;
  same_page = ap (λ (i : IptEntry). i.entry.virtual_page) same ∙ m.same_page;
  owned = ap (λ (i : IptEntry). i.space_owner) same ∙ (m.owned ∙ ap pos (sym cur));
}

requeued-Stepped :
    (vm : Vm) (q : Queue)
    → IsSound vm
    → Framed q.elements
    → Stepped 32 vm (record vm { swap_queue = q })
requeued-Stepped vm q h framed = record {
  holds = record {
    size = h.size;
    sized = h.sized;
    swap_sized = h.swap_sized;
    marked = h.marked;
    own = h.own;
    at_home = h.at_home;
    placed = h.placed;
    coherent = λ j lt v.
        let m = h.coherent j lt v in
        Mapped-again 32 32 vm (record vm { swap_queue = q }) (vm.tlb j) m m.apart refl refl;
    queued = framed;
    counted = h.counted;
    readable = h.readable;
    named = h.named;
  };
  current = refl;
  counter = refl;
  pages = λ o k e found. (e, found);
  misses = λ vpn miss. miss;
}

-- The frame that is chosen, with the queue as it is left.
record Chosen (rand : ℕ) (vm : Vm) : Type 0 where
  victim : ℕ
  queue : Queue
  result : choose_victim rand vm ≡ (record vm { swap_queue = queue }, pos victim)
  below : victim < 32
  framed : Framed queue.elements

InFrames-pos : (i : ℤ) → InFrames i → (f : ℕ) × (i ≡ pos f) × (f < 32)
InFrames-pos (pos f) h = (f, refl, h)
InFrames-pos (negsuc f) h = absurd h

removed :
    (q : Queue)
    → Framed q.elements
    → (f : ℕ) × (item_of (remove q).1 ≡ pos f) × (f < 32) × Framed (remove q).0.elements
unfolding remove sorted_remove
removed q h = go q.elements refl h
  where
    go :
        (es : List ListElement)
        → q.elements ≡ es
        → Framed es
        → (f : ℕ) × (item_of (remove q).1 ≡ pos f) × (f < 32) × Framed (remove q).0.elements
    go [] e h = rw e (0, refl, omega arith, tt)
    go (x ∷ es) e (here, rest) =
        let (f, eq, lt) = InFrames-pos x.item here in rw e (f, eq, lt, rest)

chosen : (rand : ℕ) (vm : Vm) → Framed vm.swap_queue.elements → Chosen rand vm
unfolding choose_victim
chosen rand vm h = elim (Bool-cases vm.run_with_fifo) [
  | inl fifo ↦
      let (f, eq, lt, framed) = removed vm.swap_queue h in
      record {
        victim = f;
        queue = (remove vm.swap_queue).0;
        result = ground (arith, fifo, eq);
        below = lt;
        framed = framed;
      }
  | inr random ↦ record {
    victim = rand % 32;
    queue = vm.swap_queue;
    result = ground (arith, random);
    below = omega arith;
    framed = h;
  }
]

-- With every frame taken and room in the swap file the handler of a full memory succeeds.
handle_memory_full-Stepped :
    (rand : ℕ) (vm : Vm)
    → IsSound vm
    → num_clear vm.frames ≡ 0
    → 0 < num_clear vm.swap_map
    → (vm' : Vm) × (v : ℕ) × (handle_memory_full rand vm ≡ some (vm', v))
      × (v < 32)
      × Stepped v vm vm'
unfolding handle_memory_full
handle_memory_full-Stepped rand vm h full room =
    let c = chosen rand vm h.queued in
    let queued = requeued-Stepped vm c.queue h c.framed in
    let valid : (vm.ipt c.victim).entry.valid ≡ true =
      sym (h.marked c.victim c.below (λ e. absurd (omega (arith, c.below))))
      ∙ all_set vm.frames c.victim full (omega (arith, c.below, h.size)) in
    let (vm', went, s) =
      evict-Stepped (record vm { swap_queue = c.queue }) c.victim queued.holds c.below valid room in
    (
      vm',
      c.victim,
      rw (c.result) (ground (arith, c.below, went)),
      c.below,
      record {
        holds = s.holds;
        current = s.current;
        counter = s.counter;
        pages = s.pages;
        misses = s.misses;
      },
    )

-- A free frame is taken.
module _ (vm : Vm) (i : ℕ) (h : IsSound vm) (inside : i < 32)
    (clear : test_bit vm.frames i ≡ false) where
  bit_after :
      (j : ℕ) → test_bit (mark_bit vm.frames i) j ≡ (if i == j then true else test_bit vm.frames j)
  bit_after j = test_bit-mark_bit vm.frames i j h.sized (omega (arith, h.size))

  marked-Stepped : Stepped i vm (record vm { frames = mark_bit vm.frames i })
  marked-Stepped = record {
    holds = record {
      size = mark_bit-num_bits vm.frames i ∙ h.size;
      sized = mark_bit-IsSized vm.frames i h.sized;
      swap_sized = h.swap_sized;
      marked = λ j lt ne. ground (arith, bit_after j, h.marked j lt (omega arith));
      own = λ lt. ground (arith, bit_after i);
      at_home = λ j lt ne. h.at_home j lt (omega arith);
      placed = λ j lt ne. h.placed j lt (omega arith);
      coherent = λ j lt v.
          let m = h.coherent j lt v in
          Mapped-again 32 i vm (record vm { frames = mark_bit vm.frames i }) (vm.tlb j) m
            (λ e. absurd (
              ground (
                arith,
                clear,
                h.marked m.frame m.below m.apart ∙ m.taken,
                ap (test_bit vm.frames) e,
              )))
            refl refl;
      queued = h.queued;
      counted = h.counted;
      readable = h.readable;
      named = h.named;
    };
    current = refl;
    counter = refl;
    pages = λ o k e found. (e, found);
    misses = λ vpn miss. miss;
  }

-- With room in the swap file there is always a frame for a page.
pub take_frame-Stepped :
    (rand : ℕ) (vm : Vm)
    → IsSound vm
    → 0 < num_clear vm.swap_map
    → (vm' : Vm) × (ppn : ℕ) × (take_frame rand vm (find vm.frames) ≡ some (vm', ppn))
      × (ppn < 32)
      × Stepped ppn vm vm'
take_frame-Stepped rand vm h room = elim (Bool-cases (num_clear vm.frames == 0)) [
  | inl full ↦
      let none_clear : num_clear vm.frames ≡ 0 = ground (arith, full) in
      let (vm', v, went, lt, s) = handle_memory_full-Stepped rand vm h none_clear room in
      (vm', v, rw ((find_full vm.frames).1 none_clear) went, lt, s)
  | inr some_clear ↦
      let (i, t) = find_takes vm.frames h.sized (ground (arith, some_clear)) in
      let lt : i < 32 = omega (arith, t.inside, h.size) in
      (
        record vm { frames = mark_bit vm.frames i },
        i,
        rw (t.result) (ground (arith, lt)),
        lt,
        marked-Stepped vm i h lt t.was_clear,
      )
]
