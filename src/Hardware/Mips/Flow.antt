-- ===== src/Hardware/Mips/Flow.antt =====
-- What OneInstruction of machine/mipssim.cc does to the program counters, and how a trap leaves the
-- registers for the next try.
use cs350project.Prelude.{
  ℕ, ◌<◌, ◌≡◌, Bool, false, refl, arith, ◌==◌, if◌then◌else◌, ℤ, Option, none, some,
}
use cs350project.Vm.Machine.{Machine, ExceptionType, Outcome, fault, ok, read_mem, signed, unsigned}
use cs350project.Hardware.Mips.Decode.{decode}
use cs350project.Hardware.Mips.Step.{
  Registers, Executed, completed, trapped, execute, Step, stepped, in_kernel, raise_exception,
  finish, fetched, one_instruction,
}
use cs350project.Vm.Machine.Served.{HasOne, Served, read_mem-Served}
use cs350project.Hardware.Mips.Operations.{decode-operation}
use cs350project.Hardware.Mips.Finish.{refused, Finishes, execute-Finishes}
use cs350project.Hardware.Mips.Keeps.{Keeps, execute-Keeps, decode-bounds}

-- A general register after the load that is still to come.
abbrev pub with_load : Registers → ℕ → ℕ
with_load r k = if k == 0 then 0 else if k == r 37 then r 38 else r k

-- A step goes on at NextPCReg and leaves PCReg in PrevPCReg; a trap leaves both counters, and the general
-- register `k` with the load done.
unfoldable pub Flows : ℕ → Registers → Option Step → Type 0
Flows k r none = ⊥
Flows k r (some (stepped r' m)) = (r' 34 ≡ r 35) × (r' 36 ≡ r 34) × (r' 0 ≡ 0) × (r' 37 < 32)
Flows k r (some (in_kernel r' m x)) =
    (r' 34 ≡ r 34) × (r' 35 ≡ r 35) × (r' 37 ≡ 0) × (r' k ≡ with_load r k)

raised-Flows :
    (k : ℕ) (r r' : Registers) (m : Machine) (x : ExceptionType) (a : ℕ)
    → k < 32
    → r 37 < 32
    → ((j : ℕ) → r' j ≡ r j)
    → Flows k r (some (raise_exception r' m x a))
unfolding Flows
raised-Flows k r r' m x a lt pending same =
    let p = same 37 in
    let q = same 38 in
    let s = same k in
    let c = same 34 in let n = same 35 in (ground arith, ground arith, ground arith, ground arith)

finish-Flows :
    (k : ℕ) (r : Registers) (o : Option Executed)
    → k < 32
    → r 37 < 32
    → Keeps r o
    → Finishes o
    → Flows k r (finish o)
unfolding Flows Keeps
finish-Flows k r none lt pending kept h = h
finish-Flows k r (some (completed r' m after d v)) lt pending (same, small) h =
    let p = same 37 (omega arith) in
    let c = same 34 (omega arith) in
    let n = same 35 (omega arith) in (ground arith, ground arith, ground arith, ground arith)
finish-Flows k r (some (trapped r' m x a)) lt pending same h =
    raised-Flows k r r' m x a lt pending same

-- The instruction that was fetched is one that the switch refuses.
abbrev pub refuses : Registers → Option (Machine × Outcome ℤ) → Bool
refuses r none = false
refuses r (some (m, fault x)) = false
refuses r (some (m, ok raw)) = let i = decode (unsigned raw) in refused i.op_code i r

fetched-Flows :
    (now k : ℕ) (r : Registers) (o : Option (Machine × Outcome ℤ))
    → k < 32
    → r 37 < 32
    → Served o
    → refuses r o ≡ false
    → Flows k r (fetched now r o)
unfolding Flows Served
fetched-Flows now k r none lt pending one fine = one
fetched-Flows now k r (some (m, fault x)) lt pending one fine =
    raised-Flows k r r m x (r 34) lt pending λ j. refl
fetched-Flows now k r (some (m, ok raw)) lt pending one fine =
    let i = decode (unsigned raw) in
    finish-Flows k r (execute now i.op_code i r m) lt pending
      (execute-Keeps now i.op_code i r m (decode-bounds (unsigned raw)))
      (execute-Finishes now i.op_code i r m one (decode-operation (unsigned raw)) fine)

-- On a machine with a TLB or a page table, with the delayed load that is still to come for a general
-- register, an instruction fails no assertion, unless it is an LWL, LWR, SWL or SWR of an unaligned
-- address or a division that overflows. It goes on at NextPCReg, with its own address in PrevPCReg and
-- zero in R0, and its own delayed load is for a general register again; or it traps. A trap leaves both
-- program counters, so that the instruction is tried again, no load is still to come, and a general
-- register has what it had after that load: the instruction did nothing to it.
pub one_instruction-Flows :
    (now k : ℕ) (r : Registers) (m : Machine)
    → k < 32
    → r 37 < 32
    → HasOne m
    → refuses r (read_mem now (signed (r 34)) 4 m) ≡ false
    → Flows k r (one_instruction now r m)
unfolding one_instruction
one_instruction-Flows now k r m lt pending one fine =
    fetched-Flows now k r (read_mem now (signed (r 34)) 4 m) lt pending
      (read_mem-Served now (signed (r 34)) 4 m refl one) fine
