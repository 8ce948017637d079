-- ===== src/Threads/Scheduler.antt =====
-- threads/scheduler.cc and the thread operations of threads/thread.cc that it serves.  Interrupts are
-- off inside of each operation, so each is one step; `run` is the step up to the context switch.
pub mod States
pub mod Rotation
mod Tests
use cs350project.Prelude.{
  ℕ, zero, suc, Bool, true, false, if◌then◌else◌, ℤ, eqb_ℤ, Option, none, some, List, [], ◌∷◌,
  and_then,
}
use cs350project.Threads.Queue.{ListElement, Queue, append, remove, new_list}

pub data ThreadStatus : Type 0 where
  just_created : ThreadStatus
  running : ThreadStatus
  ready : ThreadStatus
  blocked : ThreadStatus

-- A thread is a number, as an item of a list is; `to_be_destroyed` is `threadToBeDestroyed`.
pub record Cpu : Type 0 where
  pub current : ℤ
  pub statuses : ℤ → ThreadStatus
  pub ready_list : Queue
  pub to_be_destroyed : Option ℤ

-- `setStatus`
abbrev pub set_status : ℤ → ThreadStatus → Cpu → Cpu
set_status t status c = record c { statuses = λ u. if eqb_ℤ t u then status else c.statuses u }

unfoldable pub ready_to_run : ℤ → Cpu → Cpu
ready_to_run t c = let c' = set_status t ready c in record c' { ready_list = append t c.ready_list }

unfoldable pub find_next_to_run : Cpu → Cpu × Option ListElement
find_next_to_run c = let (q, first) = remove c.ready_list in (record c { ready_list = q }, first)

-- After the switch the carcass of a finished thread is deleted.
unfoldable pub run : ℤ → Cpu → Cpu
run next c = set_status next running (record c { current = next; to_be_destroyed = none })

abbrev pub yield_to : Cpu × Option ListElement → Cpu
yield_to (c, none) = c
yield_to (c, some e) = run e.item (ready_to_run c.current c)

-- `Thread::Yield` of the running thread
unfoldable pub yield : Cpu → Cpu
yield c = yield_to (find_next_to_run c)

-- `Thread::Fork` of a thread that was just created
unfoldable pub fork : ℤ → Cpu → Cpu
fork t c = ready_to_run t c

-- A thread that was found runs; without one the processor waits.
abbrev pub run_or : (Cpu → Option Cpu) → Cpu × Option ListElement → Option Cpu
run_or wait (c, none) = wait c
run_or wait (c, some e) = some (run e.item c)

-- The loop of `Sleep`: `idle` is `Interrupt::Idle`, whose handlers make threads ready, or which halts
-- (`none`); on fuel.
unfoldable pub sleep_from : (Cpu → Option Cpu) → ℕ → Cpu → Option Cpu
sleep_from idle zero c = none
sleep_from idle (suc fuel) c =
    run_or (λ c'. and_then (idle c') (sleep_from idle fuel)) (find_next_to_run c)

-- `Thread::Sleep` of the running thread
unfoldable pub sleep : (Cpu → Option Cpu) → ℕ → Cpu → Option Cpu
sleep idle fuel c = sleep_from idle fuel (set_status c.current blocked c)

-- `Thread::Finish`
unfoldable pub finish : (Cpu → Option Cpu) → ℕ → Cpu → Option Cpu
finish idle fuel c = sleep idle fuel (record c { to_be_destroyed = some c.current })
