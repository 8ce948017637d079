-- ===== src/Hardware/Mips/Step.antt =====
-- Machine::OneInstruction and DelayedLoad of machine/mipssim.cc, on registers of 32 bits. What the kernel's
-- exception handler does is not part of a step: a trap ends it.
use Prim.Native.Nat.{bit_and, bit_or, bit_xor}
use cs350project.Prelude.{
  ℕ, ◌+◌, ◌-◌, ◌*◌, ◌/◌, ◌%◌, ◌^◌, ltb, leb, not, ◌==◌, ◌&&◌, ◌||◌, Bool, true, false,
  if◌then◌else◌, Option, none, some, ℤ,
}
use cs350project.Vm.Machine.{
  ExceptionType, with_entry, Machine, unsigned, signed, Outcome, fault, ok, read_mem, write_mem,
}
use cs350project.Hardware.Mips.{is_negative, negate, DoubleWord, magnitude, is_flipped, mult}
use cs350project.Hardware.Mips.Decode.{
  OpCode, op_add, op_addi, op_addiu, op_addu, op_and, op_andi, op_beq, op_bgez, op_bgezal, op_bgtz,
  op_blez, op_bltz, op_bltzal, op_bne, op_div, op_divu, op_j, op_jal, op_jalr, op_jr, op_lb, op_lbu,
  op_lh, op_lhu, op_lui, op_lw, op_lwl, op_lwr, op_mfhi, op_mflo, op_mthi, op_mtlo, op_mult,
  op_multu, op_nor, op_or, op_ori, op_rfe, op_sb, op_sh, op_sll, op_sllv, op_slt, op_slti, op_sltiu,
  op_sltu, op_sra, op_srav, op_srl, op_srlv, op_sub, op_subu, op_sw, op_swl, op_swr, op_xor,
  op_xori, op_syscall, op_unimp, op_res, special, bcond, Instruction, decode,
}

-- Registers 32 to 39 are HiReg, LoReg, PCReg, NextPCReg, PrevPCReg, LoadReg, LoadValueReg, BadVAddrReg.
abbrev pub Registers : Type 0
Registers = ℕ → ℕ

abbrev pub put : Registers → ℕ → ℕ → Registers
put r k v = with_entry r k v

-- What the switch ends in: it goes on with pcAfter and the next delayed load, or it raises an exception.
pub data Executed : Type 0 where
  completed : Registers → Machine → ℕ → ℕ → ℕ → Executed
  trapped : Registers → Machine → ExceptionType → ℕ → Executed

-- pcAfter as it starts, and as a branch sets it.
abbrev pub following : Registers → ℕ
following r = (r 35 + 4) % 2 ^ 32

abbrev pub branched : Instruction → Registers → ℕ
branched i r = (r 35 + i.extra * 4) % 2 ^ 32

abbrev pub done : Registers → Machine → ℕ → Option Executed
done r m after = some (completed r m after 0 0)

abbrev pub set_to : ℕ → ℕ → Registers → Machine → Option Executed
set_to d v r m = done (put r d v) m (following r)

abbrev pub branch_if : Bool → Instruction → Registers → Machine → Option Executed
branch_if taken i r m = done r m (if taken then branched i r else following r)

-- The registers after a call has stored its return address.
abbrev pub linked : Registers → Registers
linked r = put r 31 (following r)

abbrev pub jump_to : Instruction → Registers → ℕ
jump_to i r = bit_or (bit_and (following r) 4026531840) (i.extra * 4)

abbrev pub same_sign : ℕ → ℕ → Bool
same_sign a b = if is_negative a then is_negative b else ltb b (2 ^ 31)

abbrev pub difference : ℕ → ℕ → ℕ
difference a b = (a + 2 ^ 32 - b) % 2 ^ 32

abbrev pub checked_add : ℕ → ℕ → ℕ → Registers → Machine → Option Executed
checked_add a b d r m =
    let sum = (a + b) % 2 ^ 32 in
    if same_sign a b && not (same_sign a sum)
    then some (trapped r m ExceptionType.overflow 0)
    else set_to d sum r m

abbrev pub checked_sub : ℕ → ℕ → ℕ → Registers → Machine → Option Executed
checked_sub a b d r m =
    let diff = difference a b in
    if not (same_sign a b) && not (same_sign a diff)
    then some (trapped r m ExceptionType.overflow 0)
    else set_to d diff r m

-- Division of ints rounds towards zero; the host traps on its overflow.
abbrev pub flipped : Bool → ℕ → ℕ
flipped negative a = if negative then negate a else a

abbrev pub set_hi_lo : ℕ → ℕ → Registers → Machine → Option Executed
set_hi_lo hi lo r m = done (put (put r 33 lo) 32 hi) m (following r)

abbrev pub divide : ℕ → ℕ → Registers → Machine → Option Executed
divide a b r m =
    if b == 0
    then set_hi_lo 0 0 r m
    else if a == 2 ^ 31 && b == 2 ^ 32 - 1
    then none
    else set_hi_lo (flipped (is_negative a) (magnitude true a % magnitude true b))
        (flipped (is_flipped true a b) (magnitude true a / magnitude true b)) r m

abbrev pub divide_unsigned : ℕ → ℕ → Registers → Machine → Option Executed
divide_unsigned a b r m = if b == 0 then set_hi_lo 0 0 r m else set_hi_lo (a % b) (a / b) r m

abbrev pub multiply : DoubleWord → Registers → Machine → Option Executed
multiply p r m = set_hi_lo p.hi p.lo r m

-- A shift to the right of an int; SRL and SRLV do it too.
abbrev pub shifted_right : ℕ → ℕ → ℕ
shifted_right n a = a / 2 ^ n + (if is_negative a then 2 ^ 32 - 2 ^ (32 - n) else 0)

abbrev pub shifted_left : ℕ → ℕ → ℕ
shifted_left n a = a * 2 ^ n % 2 ^ 32

abbrev pub truth : Bool → ℕ
truth b = if b then 1 else 0

-- a < b as ints
abbrev pub less : ℕ → ℕ → Bool
less a b = if is_negative a then (ltb b (2 ^ 31) || ltb a b) else ltb b (2 ^ 31) && ltb a b

-- The low bits of a value, sign-extended or not.
abbrev pub narrow : Bool → ℕ → ℕ → ℕ
narrow signed_value w v =
    let low = v % 2 ^ w in
    if signed_value && leb (2 ^ (w - 1)) low then low + (2 ^ 32 - 2 ^ w) else low

abbrev pub address : Instruction → Registers → ℕ
address i r = (r i.rs + i.extra) % 2 ^ 32

-- A read for a delayed load; the exception of `ReadMem` is raised there.
abbrev pub loaded : (ℕ → ℕ) → ℕ → ℕ → Registers → Option (Machine × Outcome ℤ) → Option Executed
loaded f d a r none = none
loaded f d a r (some (m, fault x)) = some (trapped r m x a)
loaded f d a r (some (m, ok v)) = some (completed r m (following r) d (f (unsigned v)))

abbrev pub load_value : ℕ → (ℕ → ℕ) → ℕ → ℕ → ℕ → Registers → Machine → Option Executed
load_value now f size a d r m = loaded f d a r (read_mem now (signed a) size m)

-- LH and LW test the alignment, LWL, LWR, SWL and SWR assert it.
abbrev pub load_aligned : ℕ → (ℕ → ℕ) → ℕ → ℕ → ℕ → Registers → Machine → Option Executed
load_aligned now f size a d r m =
    if a % size == 0
    then load_value now f size a d r m
    else some (trapped r m ExceptionType.address_error a)

abbrev pub load_asserted : ℕ → (ℕ → ℕ) → ℕ → ℕ → Registers → Machine → Option Executed
load_asserted now f a d r m = if a % 4 == 0 then load_value now f 4 a d r m else none

-- The value that LWR merges into: a load that is still to come counts.
abbrev pub pending_value : ℕ → Registers → ℕ
pending_value d r = if r 37 == d then r 38 else r d

-- The first case of the switch on `tmp & 0x3`, which the assertion leaves.
abbrev pub merged_right : ℕ → Registers → ℕ → ℕ
merged_right d r v = bit_or (bit_and (pending_value d r) 4294967040) (v / 2 ^ 24)

abbrev pub written : ℕ → Registers → Option (Machine × Outcome (Unit {0})) → Option Executed
written a r none = none
written a r (some (m, fault x)) = some (trapped r m x a)
written a r (some (m, ok _)) = done r m (following r)

abbrev pub store_value : ℕ → ℕ → ℕ → ℕ → Registers → Machine → Option Executed
store_value now size a v r m = written a r (write_mem now (signed a) size (signed v) m)

-- SWL and SWR read the word before they write it.
abbrev pub rewritten : ℕ → (ℕ → ℕ) → ℕ → Registers → Option (Machine × Outcome ℤ) → Option Executed
rewritten now f a r none = none
rewritten now f a r (some (m, fault x)) = some (trapped r m x a)
rewritten now f a r (some (m, ok v)) = store_value now 4 a (f (unsigned v)) r m

abbrev pub store_asserted : ℕ → (ℕ → ℕ) → ℕ → Registers → Machine → Option Executed
store_asserted now f a r m =
    if a % 4 == 0 then rewritten now f a r (read_mem now (signed a) 4 m) else none

-- The switch of `OneInstruction` at the time `now`; `none` is a failed assertion.
unfoldable pub execute : ℕ → OpCode → Instruction → Registers → Machine → Option Executed
execute now op_add i r m = checked_add (r i.rs) (r i.rt) i.rd r m
execute now op_addi i r m = checked_add i.extra (r i.rs) i.rt r m
execute now op_addiu i r m = set_to i.rt ((r i.rs + i.extra) % 2 ^ 32) r m
execute now op_addu i r m = set_to i.rd ((r i.rs + r i.rt) % 2 ^ 32) r m
execute now op_and i r m = set_to i.rd (bit_and (r i.rs) (r i.rt)) r m
execute now op_andi i r m = set_to i.rt (bit_and (r i.rs) (i.extra % 2 ^ 16)) r m
execute now op_beq i r m = branch_if (r i.rs == r i.rt) i r m
execute now op_bgezal i r m = branch_if (not (is_negative (linked r i.rs))) i (linked r) m
execute now op_bgez i r m = branch_if (not (is_negative (r i.rs))) i r m
execute now op_bgtz i r m = branch_if (less 0 (r i.rs)) i r m
execute now op_blez i r m = branch_if (not (less 0 (r i.rs))) i r m
execute now op_bltzal i r m = branch_if (is_negative (linked r i.rs)) i (linked r) m
execute now op_bltz i r m = branch_if (is_negative (r i.rs)) i r m
execute now op_bne i r m = branch_if (not (r i.rs == r i.rt)) i r m
execute now op_div i r m = divide (r i.rs) (r i.rt) r m
execute now op_divu i r m = divide_unsigned (r i.rs) (r i.rt) r m
execute now op_jal i r m = done (linked r) m (jump_to i r)
execute now op_j i r m = done r m (jump_to i r)
execute now op_jalr i r m = let r' = put r i.rd (following r) in done r' m (r' i.rs)
execute now op_jr i r m = done r m (r i.rs)
execute now op_lb i r m = load_value now (narrow true 8) 1 (address i r) i.rt r m
execute now op_lbu i r m = load_value now (narrow false 8) 1 (address i r) i.rt r m
execute now op_lh i r m = load_aligned now (narrow true 16) 2 (address i r) i.rt r m
execute now op_lhu i r m = load_aligned now (narrow false 16) 2 (address i r) i.rt r m
execute now op_lui i r m = set_to i.rt (shifted_left 16 i.extra) r m
execute now op_lw i r m = load_aligned now (λ v. v) 4 (address i r) i.rt r m
execute now op_lwl i r m = load_asserted now (λ v. v) (address i r) i.rt r m
execute now op_lwr i r m = load_asserted now (merged_right i.rt r) (address i r) i.rt r m
execute now op_mfhi i r m = set_to i.rd (r 32) r m
execute now op_mflo i r m = set_to i.rd (r 33) r m
execute now op_mthi i r m = set_to 32 (r i.rs) r m
execute now op_mtlo i r m = set_to 33 (r i.rs) r m
execute now op_mult i r m = multiply (mult (r i.rs) (r i.rt) true) r m
execute now op_multu i r m = multiply (mult (r i.rs) (r i.rt) false) r m
execute now op_nor i r m = set_to i.rd (2 ^ 32 - 1 - bit_or (r i.rs) (r i.rt)) r m
execute now op_or i r m = set_to i.rd (bit_or (r i.rs) (r i.rs)) r m
execute now op_ori i r m = set_to i.rt (bit_or (r i.rs) (i.extra % 2 ^ 16)) r m
execute now op_sb i r m = store_value now 1 (address i r) (r i.rt) r m
execute now op_sh i r m = store_value now 2 (address i r) (r i.rt) r m
execute now op_sll i r m = set_to i.rd (shifted_left i.extra (r i.rt)) r m
execute now op_sllv i r m = set_to i.rd (shifted_left (r i.rs % 32) (r i.rt)) r m
execute now op_slt i r m = set_to i.rd (truth (less (r i.rs) (r i.rt))) r m
execute now op_slti i r m = set_to i.rt (truth (less (r i.rs) i.extra)) r m
execute now op_sltiu i r m = set_to i.rt (truth (ltb (r i.rs) i.extra)) r m
execute now op_sltu i r m = set_to i.rd (truth (ltb (r i.rs) (r i.rt))) r m
execute now op_sra i r m = set_to i.rd (shifted_right i.extra (r i.rt)) r m
execute now op_srav i r m = set_to i.rd (shifted_right (r i.rs % 32) (r i.rt)) r m
execute now op_srl i r m = set_to i.rd (shifted_right i.extra (r i.rt)) r m
execute now op_srlv i r m = set_to i.rd (shifted_right (r i.rs % 32) (r i.rt)) r m
execute now op_sub i r m = checked_sub (r i.rs) (r i.rt) i.rd r m
execute now op_subu i r m = set_to i.rd (difference (r i.rs) (r i.rt)) r m
execute now op_sw i r m = store_value now 4 (address i r) (r i.rt) r m
execute now op_swl i r m = store_asserted now (λ v. r i.rt) (address i r) r m
execute now op_swr i r m =
    store_asserted now (λ v. bit_or (v % 2 ^ 24) (shifted_left 24 (r i.rt))) (address i r) r m
execute now op_syscall i r m = some (trapped r m ExceptionType.syscall 0)
execute now op_xor i r m = set_to i.rd (bit_xor (r i.rs) (r i.rt)) r m
execute now op_xori i r m = set_to i.rt (bit_xor (r i.rs) (i.extra % 2 ^ 16)) r m
execute now op_unimp i r m = some (trapped r m ExceptionType.illegal_instr 0)
execute now op_res i r m = some (trapped r m ExceptionType.illegal_instr 0)
execute now op_rfe i r m = none
execute now special i r m = none
execute now bcond i r m = none

-- `DelayedLoad`
abbrev pub delayed_load : ℕ → ℕ → Registers → Registers
delayed_load d v r = put (put (put (put r (r 37) (r 38)) 37 d) 38 v) 0 0

-- How a step ends: with the next instruction, or in the kernel.
pub data Step : Type 0 where
  stepped : Registers → Machine → Step
  in_kernel : Registers → Machine → ExceptionType → Step

-- `RaiseException` up to the handler
abbrev pub raise_exception : Registers → Machine → ExceptionType → ℕ → Step
raise_exception r m x a = in_kernel (delayed_load 0 0 (put r 39 a)) m x

-- The program counters after the switch.
abbrev pub advanced : ℕ → Registers → Registers
advanced after r = put (put (put r 36 (r 34)) 34 (r 35)) 35 after

abbrev pub finish : Option Executed → Option Step
finish none = none
finish (some (completed r m after d v)) = some (stepped (advanced after (delayed_load d v r)) m)
finish (some (trapped r m x a)) = some (raise_exception r m x a)

abbrev pub fetched : ℕ → Registers → Option (Machine × Outcome ℤ) → Option Step
fetched now r none = none
fetched now r (some (m, fault x)) = some (raise_exception r m x (r 34))
fetched now r (some (m, ok raw)) =
    let i = decode (unsigned raw) in finish (execute now i.op_code i r m)

-- `OneInstruction`
unfoldable pub one_instruction : ℕ → Registers → Machine → Option Step
one_instruction now r m = fetched now r (read_mem now (signed (r 34)) 4 m)
