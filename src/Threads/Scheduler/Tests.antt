-- ===== src/Threads/Scheduler/Tests.antt =====
-- The scheduler with one running and two ready threads.
use cs350project.Prelude.{
  ℕ, ◌≡◌, refl, arith, ℤ, pos, negsuc, eqb_ℤ, if◌then◌else◌, none, some, [], ◌∷◌,
}
use cs350project.Threads.Queue.{ListElement}
use cs350project.Threads.Scheduler.{running, ready, blocked, Cpu, yield, sleep}
use cs350project.Threads.Scheduler.States.{
  is_running, weight, count, IsSound, yield-IsSound, sleep-IsSound,
}
use cs350project.Threads.Scheduler.Rotation.{order, yields, yield_round_robin}

abbrev element : ℕ → ListElement
element t = record { item = pos t; key = pos 0 }

abbrev cpu : Cpu
cpu = record {
  current = pos 1;
  statuses = λ t.
      if eqb_ℤ (pos 1) t
      then running
      else if eqb_ℤ (pos 2) t
      then ready
      else if eqb_ℤ (pos 3) t
      then ready
      else blocked;
  ready_list = record { elements = element 2 ∷ element 3 ∷ []; size = pos 2 };
  to_be_destroyed = none;
}

runs : (t : ℤ) → is_running (cpu.statuses t) ≡ eqb_ℤ (pos 1) t
runs (pos t) = ground arith
runs (negsuc t) = refl

listed : (t : ℤ) → count t (pos 2 ∷ pos 3 ∷ []) ≡ weight (cpu.statuses t)
listed (pos t) = ground arith
listed (negsuc t) = refl

cpu-IsSound : IsSound cpu
cpu-IsSound = record { current = runs; listed = listed }

yield-IsSound_example : IsSound (yield cpu)
yield-IsSound_example = yield-IsSound cpu cpu-IsSound

sleep-IsSound_example :
    (c : Cpu) × (sleep (λ c. none) 1 cpu ≡ some c)
    × IsSound c
    × (c.current ≡ pos 2)
    × (c.statuses (pos 1) ≡ blocked)
sleep-IsSound_example =
    sleep-IsSound (λ c. none) 0 cpu (element 2) (element 3 ∷ []) cpu-IsSound refl

yield_round_robin_example :
    (order (yields 3 cpu) ≡ pos 1 ∷ pos 2 ∷ pos 3 ∷ []) × ((yields 2 cpu).current ≡ pos 3)
yield_round_robin_example = yield_round_robin cpu (pos 2 ∷ []) (pos 3) [] refl
