-- ===== src/Threads/Tests.antt =====
-- The kernel's theorems at concrete threads.
use cs350project.Prelude.{ℕ, ◌≡◌, refl, true, inl, arith, pos, some, [], ◌∷◌}
use cs350project.Threads.Queue.{ListElement, Queue, sorted_insert}
use cs350project.Threads.Queue.Order.{with_key, sorted_insert-with_key}
use cs350project.Threads.Semaphore.{try_p}
use cs350project.Threads.Semaphore.Steps.{World, Step, Reachable, IsSound, reachable-IsSound}
use cs350project.Threads.Lock.{
  busy, Lock, release, Kernel, wait, signal, broadcast_starts, waits, Rounds, entered, round, other,
}
use cs350project.Threads.Lock.Ownership.{held, Shows, shows_held, lock_release_refines}
use cs350project.Threads.Lock.Woken.{Woken}
use cs350project.Threads.Lock.Broadcast.{broadcast_wakes_all}

abbrev element : ℕ → ℕ → ListElement
element i k = record { item = pos i; key = pos k }

abbrev queue : Queue
queue = record { elements = element 1 10 ∷ element 2 20 ∷ []; size = pos 2 }

sorted_insert-with_key_example :
    with_key (pos 10) ((sorted_insert (pos 3) (pos 10) queue).elements) ≡ pos 1 ∷ pos 3 ∷ []
sorted_insert-with_key_example = sorted_insert-with_key (pos 3) (pos 10) (pos 10) queue (refl, tt)

-- A semaphore of one unit, which the first of two threads has taken.
abbrev fresh_world : World
fresh_world = record {
  semaphore = record { value = 1; queue = [] };
  woken = [];
  passed = 0;
  raised = 0;
}

abbrev asleep : World
asleep = record {
  semaphore = record { value = 0; queue = 8 ∷ [] };
  woken = [];
  passed = 1;
  raised = 0;
}

reach : Reachable 1 asleep
unfolding try_p
reach = Reachable.next (Reachable.next Reachable.start (Step.enter_p fresh_world 7)) (
    Step.enter_p (record fresh_world { semaphore = record { value = 0; queue = [] }; passed = 1 })
      8)

reachable-IsSound_example : IsSound 1 asleep
reachable-IsSound_example = reachable-IsSound 1 asleep reach

abbrev taken_lock : Lock
taken_lock = record { status = busy; owner = some 7; wait_queue = 8 ∷ [] }

lock_release_refines_example :
    Shows ((release 7 taken_lock).0) (held 8 []) × ((release 7 taken_lock).1 ≡ some 8)
lock_release_refines_example =
    lock_release_refines 7 taken_lock (held 7 (8 ∷ [])) (shows_held 7 (8 ∷ []))

-- Two threads wait on the condition of lock 0.
abbrev kernel : Kernel
kernel = record {
  locks = λ i. taken_lock;
  condition = record { waiting_lock = some 0; wait_queue = 5 ∷ 6 ∷ [] };
  ready = 4 ∷ [];
}

-- Between the two rounds thread 9 waits too, with its lock.
abbrev round_one : Kernel
round_one = signal (some 0) kernel

abbrev round_two : Kernel
round_two = signal (some 0) (wait 9 (some 0) round_one).0

rounds : Rounds 0 kernel 2 round_two
rounds = round (other (round entered) (waits 9 (some 0) round_one))

starts : broadcast_starts (some 0) kernel ≡ true
unfolding broadcast_starts
starts = refl

broadcast_wakes_all_example : Woken (4 ∷ []) (5 ∷ 6 ∷ []) round_two.ready
broadcast_wakes_all_example =
    broadcast_wakes_all 0 kernel round_two 2 starts rounds (inl (omega arith))
