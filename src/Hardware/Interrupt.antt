-- ===== src/Hardware/Interrupt.antt =====
-- machine/interrupt.cc: simulated time, and the pending interrupts that come due.
pub mod Pending
pub mod Due
pub mod Ticks
use cs350project.Prelude.{
  ℕ, zero, suc, ◌+◌, ◌-◌, ltb, Bool, true, false, not, ◌&&◌, ◌||◌, if◌then◌else◌, ℤ, pos, pos_part,
  ◌+ℤ◌, ltb_ℤ, Option, none, some, List, [], ◌∷◌, and_then,
}
use cs350project.Threads.Queue.{ListElement, Queue, sorted_insert, sorted_remove, is_empty}

pub data IntStatus : Type 0 where
  int_off : IntStatus
  int_on : IntStatus

pub data MachineStatus : Type 0 where
  idle_mode : MachineStatus
  system_mode : MachineStatus
  user_mode : MachineStatus

-- The devices: what the handler of a pending interrupt does to their state.  A pending interrupt is a
-- number.  A handler may schedule others, each with how far it lies ahead, and may ask for a yield. The
-- load that is still to come in a user program is done before it runs.
pub record Effect (σ : Type 0) : Type 0 where
  pub world : σ
  pub requests : List (ℤ × ℤ)
  pub yields : Bool

pub record Devices (σ : Type 0) : Type 0 where
  pub delayed_load : σ → σ
  pub handle : ℤ → σ → Effect σ
  pub is_timer : ℤ → Bool

-- The interrupt hardware with the counts of `Statistics`.
pub record Sim (σ : Type 0) : Type 0 where
  pub level : IntStatus
  pub pending : Queue
  pub in_handler : Bool
  pub yield_on_return : Bool
  pub status : MachineStatus
  pub total_ticks : ℕ
  pub system_ticks : ℕ
  pub user_ticks : ℕ
  pub idle_ticks : ℕ
  pub world : σ

abbrev pub is_off : IntStatus → Bool
is_off int_off = true
is_off int_on = false

abbrev pub is_idle : MachineStatus → Bool
is_idle idle_mode = true
is_idle _ = false

module _ {σ : Type 0} where
  -- `Schedule`; `none` is the failed assertion that the time lies ahead.
  unfoldable pub schedule : ℤ → ℤ → Sim σ → Option (Sim σ)
  schedule item from_now s =
      if ltb_ℤ (pos 0) from_now
      then some
          (record s { pending = sorted_insert item (pos s.total_ticks +ℤ from_now) s.pending })
      else none

  unfoldable pub schedule_all : List (ℤ × ℤ) → Sim σ → Option (Sim σ)
  schedule_all [] s = some s
  schedule_all ((item, from_now) ∷ rs) s = and_then (schedule item from_now s) (schedule_all rs)

  -- SystemTick is 10 and UserTick is 1.
  abbrev pub ticked : MachineStatus → Sim σ → Sim σ
  ticked system_mode s = record s {
    total_ticks = s.total_ticks + 10;
    system_ticks = s.system_ticks + 10;
  }
  ticked _ s = record s { total_ticks = s.total_ticks + 1; user_ticks = s.user_ticks + 1 }

  -- The end of `OneTick`: whether the thread yields.
  abbrev pub returned : Sim σ → Sim σ × Bool
  returned s = (record s { level = int_on; yield_on_return = false }, s.yield_on_return)

  module _ (d : Devices σ) where
    -- The delayed load and the call of the handler, with the flags around it.
    abbrev pub invoke : ListElement → Sim σ → Option (Sim σ × Bool)
    invoke e s =
        let effect = d.handle e.item (d.delayed_load s.world) in
        and_then
          (schedule_all effect.requests (record s {
            in_handler = true;
            status = system_mode;
            world = effect.world;
            yield_on_return = s.yield_on_return || effect.yields;
          }))
          λ s'. some (record s' { in_handler = false; status = s.status }, true)

    -- The end of a program: nothing but the time-slice timer is left.
    abbrev pub run_or_quit : ListElement → Sim σ → Option (Sim σ × Bool)
    run_or_quit e s =
        if is_idle s.status && (d.is_timer e.item && is_empty s.pending)
        then some (record s { pending = sorted_insert e.item e.key s.pending }, false)
        else invoke e s

    -- The clock goes to the time of the interrupt, which may lie behind it.
    abbrev pub advanced : ListElement → Sim σ → Sim σ
    advanced e s =
        if ltb_ℤ (pos s.total_ticks) e.key
        then record s {
          idle_ticks = s.idle_ticks + (pos_part e.key - s.total_ticks);
          total_ticks = pos_part e.key;
        }
        else s

    abbrev pub if_due : Bool → ListElement → Sim σ → Option (Sim σ × Bool)
    if_due true e s = run_or_quit e (advanced e s)
    if_due false e s =
        if ltb_ℤ (pos s.total_ticks) e.key
        then some (record s { pending = sorted_insert e.item e.key s.pending }, false)
        else run_or_quit e s

    abbrev pub first_due : Bool → Sim σ → Queue × Option ListElement → Option (Sim σ × Bool)
    first_due advance s (q, none) = some (s, false)
    first_due advance s (q, some e) = if_due advance e (record s { pending = q })

    -- `CheckIfDue`, and whether a handler ran; `none` is a failed assertion.
    unfoldable pub check_if_due : Bool → Sim σ → Option (Sim σ × Bool)
    check_if_due advance s =
        if is_off s.level then first_due advance s (sorted_remove s.pending) else none

    -- while (CheckIfDue(FALSE)), on fuel; `none` is a failed assertion or out of fuel.
    unfoldable pub fire_due : ℕ → Sim σ → Option (Sim σ)
    fire_due zero s = none
    fire_due (suc fuel) s =
        and_then (check_if_due false s)
          λ (s', fired). elim fired [ true ↦ fire_due fuel s' | false ↦ some s' ]

    -- `OneTick` up to its `Yield`
    unfoldable pub one_tick : ℕ → Sim σ → Option (Sim σ × Bool)
    one_tick fuel s =
        and_then (fire_due fuel (record (ticked s.status s) { level = int_off }))
          λ s'. some (returned s')

    abbrev pub level_set : ℕ → IntStatus → IntStatus → Sim σ → Option (Sim σ × Bool)
    level_set fuel int_on int_off s = one_tick fuel (record s { level = int_on })
    level_set fuel now old s = some (record s { level = now }, false)

    -- `SetLevel`, and whether the thread yields
    unfoldable pub set_level : ℕ → IntStatus → Sim σ → Option (Sim σ × Bool)
    set_level fuel now s =
        if is_off now || not s.in_handler then level_set fuel now s.level s else none

    -- `Idle`: `none` also for `Halt`
    abbrev pub after_idle : ℕ → Sim σ × Bool → Option (Sim σ)
    after_idle fuel (s, true) =
        and_then (fire_due fuel s)
          λ s'. some (record s' { yield_on_return = false; status = system_mode })
    after_idle fuel (s, false) = none

    unfoldable pub idle : ℕ → Sim σ → Option (Sim σ)
    idle fuel s = and_then (check_if_due true (record s { status = idle_mode })) (after_idle fuel)
