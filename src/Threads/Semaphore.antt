-- ===== src/Threads/Semaphore.antt =====
-- The class `Semaphore` of threads/synch.cc.  Interrupts are off inside of `P` and `V`, so each pass
-- through the test of `P` and each `V` is one step.
pub mod Steps
use cs350project.Prelude.{
  ℕ, zero, suc, ◌+◌, ◌-◌, ◌==◌, Bool, true, false, if◌then◌else◌, List, [], ◌∷◌, ◌++◌, Option, none,
  some,
}

-- A thread is a number.
pub record Semaphore : Type 0 where
  pub value : ℕ
  pub queue : List ℕ

-- The test of the loop in `P` by the thread `t`: it passes and takes its share, or it goes to sleep.
unfoldable pub try_p : ℕ → Semaphore → Semaphore × Bool
try_p t s =
    if s.value == 0
    then (record s { queue = s.queue ++ (t ∷ []) }, false)
    else (record s { value = s.value - 1 }, true)

-- `V`, and the thread that it makes ready.
unfoldable pub v : Semaphore → Semaphore × Option ℕ
v s = elim s.queue [
  | [] ↦ (record s { value = s.value + 1 }, none)
  | (t ∷ ts) ↦ (record { value = s.value + 1; queue = ts }, some t)
]
