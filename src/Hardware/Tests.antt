-- ===== src/Hardware/Tests.antt =====
-- The hardware's theorems at one disk and one device.
use cs350project.Prelude.{
  ℕ, ◌+◌, ◌<◌, ◌≡◌, ◌%◌, ◌*◌, ◌^◌, refl, arith, Bool, true, false, pos, Option, none, some, ◌==◌,
  if◌then◌else◌, [], ◌∷◌,
}
use cs350project.Threads.Queue.Order.{Ascending}
use cs350project.Vm.Machine.{
  Machine, read_mem, translate, misaligned, check_entry, unsigned, signed, little_endian, load,
}
use cs350project.Hardware.Mips.Decode.{decode}
use cs350project.Hardware.Mips.Step.{Step, stepped, execute, one_instruction}
use cs350project.Hardware.Mips.Finish.{refused}
use cs350project.Hardware.Mips.Flow.{Flows, refuses, one_instruction-Flows}
use cs350project.Hardware.Mips.{mult}
use cs350project.Hardware.Mips.Product.{extended, mult-value}
use cs350project.Hardware.Interrupt.{int_on, system_mode, Devices, Sim, one_tick}
use cs350project.Hardware.Interrupt.Pending.{count_due}
use cs350project.Hardware.Interrupt.Due.{AllAhead}
use cs350project.Hardware.Interrupt.Ticks.{Accounts, one_tick_settles}
use cs350project.Hardware.Disk.{Disk}

-- A timer that counts its interrupts, schedules the next one and asks for a yield.
abbrev timer : Devices ℕ
timer = record {
  delayed_load = λ w. w;
  handle = λ item w. record { world = w + 1; requests = (item, pos 100) ∷ []; yields = true };
  is_timer = λ item. true;
}

timer-AllAhead : AllAhead timer
timer-AllAhead item w = (refl, tt)

abbrev sim : Sim ℕ
sim = record {
  level = int_on;
  pending = record {
    elements = record { item = pos 0; key = pos 105 } ∷ record { item = pos 1; key = pos 300 } ∷ [];
    size = pos 0;
  };
  in_handler = false;
  yield_on_return = false;
  status = system_mode;
  total_ticks = 100;
  system_ticks = 60;
  user_ticks = 30;
  idle_ticks = 10;
  world = 0;
}

one_tick_settles_example :
    (s' : Sim ℕ) × (yields : Bool) × (one_tick timer 3 sim ≡ some (s', yields))
    × (s'.level ≡ int_on)
    × (s'.total_ticks ≡ 110)
    × (count_due s'.total_ticks s'.pending.elements ≡ 0)
    × Ascending s'.pending.elements
    × Accounts s'
one_tick_settles_example =
    one_tick_settles timer sim 3 timer-AllAhead refl (refl, tt) refl (omega arith)

abbrev disk : Disk
disk = record { last_sector = 40; buffer_init = 1000; total_ticks = 2345 }

-- -3 times 5 as ints
mult-value_example :
    let r = mult 4294967293 5 true in
    (r.hi < 2 ^ 32)
    × (r.lo < 2 ^ 32)
    × (r.hi * 2 ^ 32 + r.lo ≡ extended true 4294967293 * extended true 5 % 2 ^ 64)
mult-value_example = mult-value 4294967293 5 true (omega arith) (omega arith)

-- ADDI r5,r6,7 at address 0, the only page; a load of 9 into r4 is still to come.
abbrev registers : ℕ → ℕ
registers k =
    if k == 6 then 100 else if k == 35 then 4 else if k == 37 then 4 else if k == 38 then 9 else 0

abbrev computer : Machine
computer = record {
  memory = λ a. if a == 0 then 7 else if a == 2 then 197 else if a == 3 then 32 else 0;
  tlb = none;
  page_table = some (
      record {
        virtual_page = pos 0;
        physical_page = pos 0;
        valid = true;
        read_only = false;
        used = false;
        dirty = false;
      }
      ∷ []);
  last_used = λ i. 0;
}

addi_fine : refuses registers (read_mem 0 (signed (registers 34)) 4 computer) ≡ false
unfolding read_mem translate misaligned check_entry unsigned signed little_endian load decode
    refused
addi_fine = refl

one_instruction-Flows_example : Flows 4 registers (one_instruction 0 registers computer)
one_instruction-Flows_example =
    one_instruction-Flows 0 4 registers computer (omega arith) (omega arith) refl addi_fine

-- The instruction adds, and the load arrives.
run_values : Option Step → ℕ × ℕ × ℕ
run_values (some (stepped r m)) = (r 5, r 4, r 34)
run_values _ = (0, 0, 0)

one_instruction_adds : run_values (one_instruction 0 registers computer) ≡ (107, 9, 4)
unfolding run_values one_instruction read_mem translate misaligned check_entry unsigned signed
    little_endian load decode execute
one_instruction_adds = refl
