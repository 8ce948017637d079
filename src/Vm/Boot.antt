-- ===== src/Vm/Boot.antt =====
-- The paging globals as `Initialize` of threads/system.cc leaves them, and why they are sound.
use cs350project.Prelude.{
  ℕ, ◌≡◌, refl, arith, Bool, true, false, ℤ, pos, minus_one, Option, some, List, length,
}
use cs350project.Bitmap.{new_bitmap, div_round_up}
use cs350project.Bitmap.Fresh.{new_bitmap-IsFresh}
use cs350project.Threads.Queue.{new_list}
use cs350project.Vm.Machine.{TranslationEntry}
use cs350project.Vm.Paging.{ExtendedTranslationEntry, Process, File, Vm, page}
use cs350project.Vm.Handler.Invariant.{is_readable, IsSound}

-- A global array starts as zeros; the TLB's entries are made invalid.
abbrev pub zero_entry : TranslationEntry
zero_entry = record {
  virtual_page = pos 0;
  physical_page = pos 0;
  valid = false;
  read_only = false;
  used = false;
  dirty = false;
}

-- The words of the two bitmaps and the size of the queue are as the memory was; the swap file and the
-- processes are given.
unfoldable pub boot : List ℕ → List ℕ → ℤ → Bool → File → (ℕ → Option Process) → ℕ → Vm
boot frame_words swap_words stray fifo swapfile processes current = record {
  memory = λ a. 0;
  tlb = λ i. zero_entry;
  ipt = λ i. record { entry = zero_entry; space_owner = pos 0 };
  frames = new_bitmap frame_words 32;
  swapfile = swapfile;
  swap_map = new_bitmap swap_words 32000;
  swap_queue = new_list stray;
  tlb_counter = minus_one;
  run_with_fifo = fifo;
  processes = processes;
  current = current;
}

-- The start is sound, over any fresh memory and with any page tables whose pages can be loaded.
pub boot-IsSound :
    (frame_words swap_words : List ℕ) (stray : ℤ) (fifo : Bool) (swapfile : File)
    (processes : ℕ → Option Process) (current : ℕ)
    → length frame_words ≡ 1
    → length swap_words ≡ 1000
    → ((o k : ℤ) (e : ExtendedTranslationEntry)
        → page processes o k ≡ some e
        → is_readable e ≡ true)
    → ((o : ℕ) (p : Process) → processes o ≡ some p → p.space_id ≡ pos o)
    → IsSound (boot frame_words swap_words stray fifo swapfile processes current)
unfolding boot div_round_up
boot-IsSound frame_words swap_words stray fifo swapfile processes current lf ls readable named =
    let f = new_bitmap-IsFresh frame_words 32 lf in
    let s = new_bitmap-IsFresh swap_words 32000 ls in
    record {
      size = f.size;
      sized = f.sized;
      swap_sized = s.sized;
      marked = λ i lt ne. f.clear i lt;
      own = λ lt. absurd (omega arith);
      at_home = λ i lt ne v. absurd (cc);
      placed = λ i lt ne v. absurd (cc);
      coherent = λ j lt v. absurd (cc);
      queued = tt;
      counted = refl;
      readable = readable;
      named = named;
    }
