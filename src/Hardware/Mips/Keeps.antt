-- ===== src/Hardware/Mips/Keeps.antt =====
-- What the switch of OneInstruction of machine/mipssim.cc leaves as it was.
use Prim.Native.Nat.{bit_and, bit_or, bit_xor}
use cs350project.Hardware.Mips.{is_negative, mult}
use cs350project.Prelude.{
  ℕ, ◌+◌, ◌%◌, ◌^◌, ◌<◌, ◌≤◌, ◌≡◌, refl, arith, ◌==◌, not, Bool, true, false, if◌then◌else◌, ◌-◌,
  ltb, ℤ, Option, none, some,
}
use cs350project.Vm.Machine.{
  Machine, ExceptionType, Outcome, fault, ok, read_mem, write_mem, signed,
}
use cs350project.Hardware.Mips.Decode.{
  OpCode, op_add, op_addi, op_addiu, op_addu, op_and, op_andi, op_beq, op_bgezal, op_bgez, op_bgtz,
  op_blez, op_bltzal, op_bltz, op_bne, op_div, op_divu, op_jal, op_j, op_jalr, op_jr, op_lb, op_lbu,
  op_lh, op_lhu, op_lui, op_lw, op_lwl, op_lwr, op_mfhi, op_mflo, op_mthi, op_mtlo, op_mult,
  op_multu, op_nor, op_or, op_ori, op_sb, op_sh, op_sll, op_sllv, op_slt, op_slti, op_sltiu,
  op_sltu, op_sra, op_srav, op_srl, op_srlv, op_sub, op_subu, op_sw, op_swl, op_swr, op_syscall,
  op_xor, op_xori, op_unimp, op_res, op_rfe, special, bcond, Instruction, decode,
}
use cs350project.Hardware.Mips.Step.{
  Registers, put, linked, branched, branch_if, jump_to, shifted_right, shifted_left, truth, less,
  narrow, address, merged_right, Executed, completed, trapped, following, done, set_to, checked_add,
  checked_sub, difference, set_hi_lo, divide, divide_unsigned, loaded, load_value, load_aligned,
  load_asserted, written, store_value, rewritten, store_asserted, execute,
}

-- The switch leaves the registers from PCReg on, and the next delayed load is for a general register; an
-- instruction that traps leaves all registers.
unfoldable pub Keeps : Registers → Option Executed → Type 0
Keeps r none = Unit {0}
Keeps r (some (completed r' m after d v)) = ((j : ℕ) → 34 ≤ j → r' j ≡ r j) × (d < 32)
Keeps r (some (trapped r' m x a)) = (j : ℕ) → r' j ≡ r j

put-Keeps :
    (d v : ℕ) (r : Registers) (m : Machine) (after : ℕ)
    → d < 34
    → Keeps r (done (put r d v) m after)
unfolding Keeps
put-Keeps d v r m after lt = (λ j le. ground arith, omega arith)

linked-Keeps : (r : Registers) (m : Machine) (after : ℕ) → Keeps r (done (linked r) m after)
linked-Keeps r m after = put-Keeps 31 (following r) r m after (omega arith)

done-Keeps : (r : Registers) (m : Machine) (after : ℕ) → Keeps r (done r m after)
unfolding Keeps
done-Keeps r m after = (λ j le. refl, omega arith)

set_to-Keeps : (d v : ℕ) (r : Registers) (m : Machine) → d < 34 → Keeps r (set_to d v r m)
set_to-Keeps d v r m lt = put-Keeps d v r m (following r) lt

branch_if-Keeps :
    (taken : Bool) (i : Instruction) (r : Registers) (m : Machine) → Keeps r (branch_if taken i r m)
branch_if-Keeps taken i r m = done-Keeps r m (if taken then branched i r else following r)

if-Keeps :
    (c : Bool) (r : Registers) (x y : Option Executed)
    → Keeps r x
    → Keeps r y
    → Keeps r (if c then x else y)
if-Keeps true r x y hx hy = hx
if-Keeps false r x y hx hy = hy

trapped-Keeps :
    (r : Registers) (m : Machine) (x : ExceptionType) (a : ℕ) → Keeps r (some (trapped r m x a))
unfolding Keeps
trapped-Keeps r m x a j = refl

none-Keeps : (r : Registers) → Keeps r none
unfolding Keeps
none-Keeps r = tt

checked_add-Keeps :
    (a b d : ℕ) (r : Registers) (m : Machine) → d < 32 → Keeps r (checked_add a b d r m)
checked_add-Keeps a b d r m lt =
    if-Keeps _ r _ _ (trapped-Keeps r m _ _) (set_to-Keeps d _ r m (omega arith))

checked_sub-Keeps :
    (a b d : ℕ) (r : Registers) (m : Machine) → d < 32 → Keeps r (checked_sub a b d r m)
checked_sub-Keeps a b d r m lt =
    if-Keeps _ r _ _ (trapped-Keeps r m _ _) (set_to-Keeps d _ r m (omega arith))

set_hi_lo-Keeps : (hi lo : ℕ) (r : Registers) (m : Machine) → Keeps r (set_hi_lo hi lo r m)
unfolding Keeps
set_hi_lo-Keeps hi lo r m = (λ j le. ground arith, omega arith)

divide-Keeps : (a b : ℕ) (r : Registers) (m : Machine) → Keeps r (divide a b r m)
divide-Keeps a b r m =
    if-Keeps _ r _ _ (set_hi_lo-Keeps 0 0 r m)
      (if-Keeps _ r _ _ (none-Keeps r) (set_hi_lo-Keeps _ _ r m))

divide_unsigned-Keeps : (a b : ℕ) (r : Registers) (m : Machine) → Keeps r (divide_unsigned a b r m)
divide_unsigned-Keeps a b r m = if-Keeps _ r _ _ (set_hi_lo-Keeps 0 0 r m) (set_hi_lo-Keeps _ _ r m)

loaded-Keeps :
    (f : ℕ → ℕ) (d a : ℕ) (r : Registers)
    → d < 32
    → (o : Option (Machine × Outcome ℤ)) → Keeps r (loaded f d a r o)
unfolding Keeps
loaded-Keeps f d a r lt none = tt
loaded-Keeps f d a r lt (some (m, fault x)) = λ j. refl
loaded-Keeps f d a r lt (some (m, ok v)) = (λ j le. refl, lt)

load_value-Keeps :
    (now : ℕ) (f : ℕ → ℕ) (size a d : ℕ) (r : Registers) (m : Machine)
    → d < 32
    → Keeps r (load_value now f size a d r m)
load_value-Keeps now f size a d r m lt = loaded-Keeps f d a r lt (read_mem now (signed a) size m)

load_aligned-Keeps :
    (now : ℕ) (f : ℕ → ℕ) (size a d : ℕ) (r : Registers) (m : Machine)
    → d < 32
    → Keeps r (load_aligned now f size a d r m)
load_aligned-Keeps now f size a d r m lt =
    if-Keeps _ r _ _ (loaded-Keeps f d a r lt _) (trapped-Keeps r m _ _)

load_asserted-Keeps :
    (now : ℕ) (f : ℕ → ℕ) (a d : ℕ) (r : Registers) (m : Machine)
    → d < 32
    → Keeps r (load_asserted now f a d r m)
load_asserted-Keeps now f a d r m lt = if-Keeps _ r _ _ (loaded-Keeps f d a r lt _) (none-Keeps r)

written-Keeps :
    (a : ℕ) (r : Registers) (o : Option (Machine × Outcome (Unit {0}))) → Keeps r (written a r o)
unfolding Keeps
written-Keeps a r none = tt
written-Keeps a r (some (m, fault x)) = λ j. refl
written-Keeps a r (some (m, ok u)) = (λ j le. refl, omega arith)

store_value-Keeps :
    (now size a v : ℕ) (r : Registers) (m : Machine) → Keeps r (store_value now size a v r m)
store_value-Keeps now size a v r m = written-Keeps a r (write_mem now (signed a) size (signed v) m)

rewritten-Keeps :
    (now : ℕ) (f : ℕ → ℕ) (a : ℕ) (r : Registers) (o : Option (Machine × Outcome ℤ))
    → Keeps r (rewritten now f a r o)
rewritten-Keeps now f a r none = none-Keeps r
rewritten-Keeps now f a r (some (m, fault x)) = trapped-Keeps r m x a
rewritten-Keeps now f a r (some (m, ok v)) = written-Keeps a r _

store_asserted-Keeps :
    (now : ℕ) (f : ℕ → ℕ) (a : ℕ) (r : Registers) (m : Machine)
    → Keeps r (store_asserted now f a r m)
store_asserted-Keeps now f a r m = if-Keeps _ r _ _ (rewritten-Keeps now f a r _) (none-Keeps r)

pub execute-Keeps :
    (now : ℕ) (op : OpCode) (i : Instruction) (r : Registers) (m : Machine)
    → (i.rt < 32) × (i.rd < 32)
    → Keeps r (execute now op i r m)
unfolding execute
execute-Keeps now op_add i r m h = checked_add-Keeps (r i.rs) (r i.rt) i.rd r m (omega (arith, h))
execute-Keeps now op_addi i r m h = checked_add-Keeps i.extra (r i.rs) i.rt r m (omega (arith, h))
execute-Keeps now op_addiu i r m h =
    set_to-Keeps i.rt ((r i.rs + i.extra) % 2 ^ 32) r m (omega (arith, h))
execute-Keeps now op_addu i r m h =
    set_to-Keeps i.rd ((r i.rs + r i.rt) % 2 ^ 32) r m (omega (arith, h))
execute-Keeps now op_and i r m h =
    set_to-Keeps i.rd (bit_and (r i.rs) (r i.rt)) r m (omega (arith, h))
execute-Keeps now op_andi i r m h =
    set_to-Keeps i.rt (bit_and (r i.rs) (i.extra % 2 ^ 16)) r m (omega (arith, h))
execute-Keeps now op_beq i r m h = branch_if-Keeps (r i.rs == r i.rt) i r m
execute-Keeps now op_bgezal i r m h =
    linked-Keeps r m
      (if (not (is_negative (linked r i.rs))) then branched i (linked r) else following (linked r))
execute-Keeps now op_bgez i r m h = branch_if-Keeps (not (is_negative (r i.rs))) i r m
execute-Keeps now op_bgtz i r m h = branch_if-Keeps (less 0 (r i.rs)) i r m
execute-Keeps now op_blez i r m h = branch_if-Keeps (not (less 0 (r i.rs))) i r m
execute-Keeps now op_bltzal i r m h =
    linked-Keeps r m
      (if (is_negative (linked r i.rs)) then branched i (linked r) else following (linked r))
execute-Keeps now op_bltz i r m h = branch_if-Keeps (is_negative (r i.rs)) i r m
execute-Keeps now op_bne i r m h = branch_if-Keeps (not (r i.rs == r i.rt)) i r m
execute-Keeps now op_div i r m h = divide-Keeps (r i.rs) (r i.rt) r m
execute-Keeps now op_divu i r m h = divide_unsigned-Keeps (r i.rs) (r i.rt) r m
execute-Keeps now op_jal i r m h = linked-Keeps r m (jump_to i r)
execute-Keeps now op_j i r m h = done-Keeps r m (jump_to i r)
execute-Keeps now op_jalr i r m h =
    put-Keeps i.rd (following r) r m (put r i.rd (following r) i.rs) (omega (arith, h))
execute-Keeps now op_jr i r m h = done-Keeps r m (r i.rs)
execute-Keeps now op_lb i r m h =
    load_value-Keeps now (narrow true 8) 1 (address i r) i.rt r m (omega (arith, h))
execute-Keeps now op_lbu i r m h =
    load_value-Keeps now (narrow false 8) 1 (address i r) i.rt r m (omega (arith, h))
execute-Keeps now op_lh i r m h =
    load_aligned-Keeps now (narrow true 16) 2 (address i r) i.rt r m (omega (arith, h))
execute-Keeps now op_lhu i r m h =
    load_aligned-Keeps now (narrow false 16) 2 (address i r) i.rt r m (omega (arith, h))
execute-Keeps now op_lui i r m h =
    set_to-Keeps i.rt (shifted_left 16 i.extra) r m (omega (arith, h))
execute-Keeps now op_lw i r m h =
    load_aligned-Keeps now (λ v. v) 4 (address i r) i.rt r m (omega (arith, h))
execute-Keeps now op_lwl i r m h =
    load_asserted-Keeps now (λ v. v) (address i r) i.rt r m (omega (arith, h))
execute-Keeps now op_lwr i r m h =
    load_asserted-Keeps now (merged_right i.rt r) (address i r) i.rt r m (omega (arith, h))
execute-Keeps now op_mfhi i r m h = set_to-Keeps i.rd (r 32) r m (omega (arith, h))
execute-Keeps now op_mflo i r m h = set_to-Keeps i.rd (r 33) r m (omega (arith, h))
execute-Keeps now op_mthi i r m h = set_to-Keeps 32 (r i.rs) r m (omega (arith, h))
execute-Keeps now op_mtlo i r m h = set_to-Keeps 33 (r i.rs) r m (omega (arith, h))
execute-Keeps now op_mult i r m h =
    set_hi_lo-Keeps (mult (r i.rs) (r i.rt) true).hi (mult (r i.rs) (r i.rt) true).lo r m
execute-Keeps now op_multu i r m h =
    set_hi_lo-Keeps (mult (r i.rs) (r i.rt) false).hi (mult (r i.rs) (r i.rt) false).lo r m
execute-Keeps now op_nor i r m h =
    set_to-Keeps i.rd (2 ^ 32 - 1 - bit_or (r i.rs) (r i.rt)) r m (omega (arith, h))
execute-Keeps now op_or i r m h =
    set_to-Keeps i.rd (bit_or (r i.rs) (r i.rs)) r m (omega (arith, h))
execute-Keeps now op_ori i r m h =
    set_to-Keeps i.rt (bit_or (r i.rs) (i.extra % 2 ^ 16)) r m (omega (arith, h))
execute-Keeps now op_sb i r m h = store_value-Keeps now 1 (address i r) (r i.rt) r m
execute-Keeps now op_sh i r m h = store_value-Keeps now 2 (address i r) (r i.rt) r m
execute-Keeps now op_sll i r m h =
    set_to-Keeps i.rd (shifted_left i.extra (r i.rt)) r m (omega (arith, h))
execute-Keeps now op_sllv i r m h =
    set_to-Keeps i.rd (shifted_left (r i.rs % 32) (r i.rt)) r m (omega (arith, h))
execute-Keeps now op_slt i r m h =
    set_to-Keeps i.rd (truth (less (r i.rs) (r i.rt))) r m (omega (arith, h))
execute-Keeps now op_slti i r m h =
    set_to-Keeps i.rt (truth (less (r i.rs) i.extra)) r m (omega (arith, h))
execute-Keeps now op_sltiu i r m h =
    set_to-Keeps i.rt (truth (ltb (r i.rs) i.extra)) r m (omega (arith, h))
execute-Keeps now op_sltu i r m h =
    set_to-Keeps i.rd (truth (ltb (r i.rs) (r i.rt))) r m (omega (arith, h))
execute-Keeps now op_sra i r m h =
    set_to-Keeps i.rd (shifted_right i.extra (r i.rt)) r m (omega (arith, h))
execute-Keeps now op_srav i r m h =
    set_to-Keeps i.rd (shifted_right (r i.rs % 32) (r i.rt)) r m (omega (arith, h))
execute-Keeps now op_srl i r m h =
    set_to-Keeps i.rd (shifted_right i.extra (r i.rt)) r m (omega (arith, h))
execute-Keeps now op_srlv i r m h =
    set_to-Keeps i.rd (shifted_right (r i.rs % 32) (r i.rt)) r m (omega (arith, h))
execute-Keeps now op_sub i r m h = checked_sub-Keeps (r i.rs) (r i.rt) i.rd r m (omega (arith, h))
execute-Keeps now op_subu i r m h =
    set_to-Keeps i.rd (difference (r i.rs) (r i.rt)) r m (omega (arith, h))
execute-Keeps now op_sw i r m h = store_value-Keeps now 4 (address i r) (r i.rt) r m
execute-Keeps now op_swl i r m h = store_asserted-Keeps now (λ v. r i.rt) (address i r) r m
execute-Keeps now op_swr i r m h =
    store_asserted-Keeps now (λ v. bit_or (v % 2 ^ 24) (shifted_left 24 (r i.rt))) (address i r) r m
execute-Keeps now op_syscall i r m h = trapped-Keeps r m ExceptionType.syscall 0
execute-Keeps now op_xor i r m h =
    set_to-Keeps i.rd (bit_xor (r i.rs) (r i.rt)) r m (omega (arith, h))
execute-Keeps now op_xori i r m h =
    set_to-Keeps i.rt (bit_xor (r i.rs) (i.extra % 2 ^ 16)) r m (omega (arith, h))
execute-Keeps now op_unimp i r m h = trapped-Keeps r m ExceptionType.illegal_instr 0
execute-Keeps now op_res i r m h = trapped-Keeps r m ExceptionType.illegal_instr 0
execute-Keeps now op_rfe i r m h = none-Keeps r
execute-Keeps now special i r m h = none-Keeps r
execute-Keeps now bcond i r m h = none-Keeps r

pub decode-bounds : (w : ℕ) → ((decode w).rt < 32) × ((decode w).rd < 32)
unfolding decode
decode-bounds w = (omega arith, omega arith)
