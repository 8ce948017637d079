-- ===== src/Hardware/Interrupt/Ticks.antt =====
-- `OneTick` as a whole.
use cs350project.Prelude.{
  ℕ, ◌+◌, ◌<◌, ◌≤◌, ◌≡◌, refl, ◌∙◌, ap, arith, Bool, false, List, [], ◌∷◌, length, some, and_then,
}
use cs350project.Threads.Queue.{ListElement}
use cs350project.Threads.Queue.Order.{Ascending}
use cs350project.Hardware.Interrupt.{
  int_on, int_off, MachineStatus, idle_mode, system_mode, user_mode, is_idle, Sim, Devices, ticked,
  returned, one_tick,
}
use cs350project.Hardware.Interrupt.Pending.{count_due}
use cs350project.Hardware.Interrupt.Due.{AllAhead, fire_due-Settled}

count_due-le : (now : ℕ) (es : List ListElement) → count_due now es ≤ length es
count_due-le now [] = omega arith
count_due-le now (e ∷ es) = ground (arith, count_due-le now es)

-- A tick of the system is ten, and one of a user program is one.
abbrev pub tick_length : MachineStatus → ℕ
tick_length system_mode = 10
tick_length _ = 1

module _ {σ : Type 0} where
  -- Every tick is counted for the system, the user or idling.
  abbrev pub Accounts : Sim σ → Type 0
  Accounts s = s.total_ticks ≡ s.system_ticks + s.user_ticks + s.idle_ticks

  ticked-total :
      (m : MachineStatus) (s : Sim σ) → (ticked m s).total_ticks ≡ s.total_ticks + tick_length m
  ticked-total idle_mode s = refl
  ticked-total system_mode s = refl
  ticked-total user_mode s = refl

  ticked-Accounts : (m : MachineStatus) (s : Sim σ) → Accounts s → Accounts (ticked m s)
  ticked-Accounts idle_mode s h = omega (arith, h)
  ticked-Accounts system_mode s h = omega (arith, h)
  ticked-Accounts user_mode s h = omega (arith, h)

  ticked-pending : (m : MachineStatus) (s : Sim σ) → (ticked m s).pending ≡ s.pending
  ticked-pending idle_mode s = refl
  ticked-pending system_mode s = refl
  ticked-pending user_mode s = refl

  ticked-status : (m : MachineStatus) (s : Sim σ) → (ticked m s).status ≡ s.status
  ticked-status idle_mode s = refl
  ticked-status system_mode s = refl
  ticked-status user_mode s = refl

  -- Where no handler schedules an interrupt for the present or the past, `OneTick` outside of the idle
  -- mode ends, with one round more than there are pending interrupts: interrupts are on again, the clock
  -- has moved by one tick of the mode, no pending interrupt is due any more, the pending interrupts
  -- are still in the order of their times, and every tick is accounted for.
  pub one_tick_settles :
      (d : Devices σ) (s : Sim σ) (fuel : ℕ)
      → AllAhead d
      → is_idle s.status ≡ false
      → Ascending s.pending.elements
      → Accounts s
      → length s.pending.elements < fuel
      → (s' : Sim σ) × (yields : Bool) × (one_tick d fuel s ≡ some (s', yields))
        × (s'.level ≡ int_on)
        × (s'.total_ticks ≡ s.total_ticks + tick_length s.status)
        × (count_due s'.total_ticks s'.pending.elements ≡ 0)
        × Ascending s'.pending.elements
        × Accounts s'
  unfolding one_tick
  one_tick_settles d s fuel ahead busy asc accounts enough =
      let t = ticked s.status s in
      let s0 : Sim σ = record t { level = int_off } in
      let same = ticked-pending s.status s in
      let asc0 : Ascending s0.pending.elements = rw same asc in
      let bound : length s0.pending.elements ≡ length s.pending.elements =
        ap (λ q. length q.elements) same in
      let (s1, went, r) =
        fire_due-Settled d ahead fuel s0 refl (ap is_idle (ticked-status s.status s) ∙ busy) asc0
          (omega (arith, count_due-le s0.total_ticks s0.pending.elements, bound)) in
      let k = r.kept in
      let a = ticked-Accounts s.status s accounts in
      (
        (returned s1).0,
        (returned s1).1,
        ap (λ o. and_then o λ s'. some (returned s')) went,
        refl,
        k.total ∙ ticked-total s.status s,
        r.none_due,
        r.ascending,
        omega (arith, k.total, k.system, k.user, k.idle, a),
      )
