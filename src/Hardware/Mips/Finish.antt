-- ===== src/Hardware/Mips/Finish.antt =====
-- When the switch of OneInstruction of machine/mipssim.cc fails no assertion.
use Prim.Native.Nat.{bit_or}
use cs350project.Prelude.{
  ℕ, ◌+◌, ◌/◌, ◌%◌, ◌^◌, ◌-◌, ◌≡◌, refl, arith, not, ◌==◌, ◌&&◌, Bool, true, false, if◌then◌else◌,
  if_both, Bool-cases, inl, inr, ℤ, Option, none, some,
}
use cs350project.Vm.Machine.{ExceptionType, Machine, Outcome, fault, ok, read_mem, signed}
use cs350project.Vm.Machine.Access.{is_size}
use cs350project.Vm.Machine.Served.{HasOne, Served, read_mem-Served, write_mem-Served}
use cs350project.Hardware.Mips.Decode.{
  OpCode, op_add, op_addi, op_addiu, op_addu, op_and, op_andi, op_beq, op_bgezal, op_bgez, op_bgtz,
  op_blez, op_bltzal, op_bltz, op_bne, op_div, op_divu, op_jal, op_j, op_jalr, op_jr, op_lb, op_lbu,
  op_lh, op_lhu, op_lui, op_lw, op_lwl, op_lwr, op_mfhi, op_mflo, op_mthi, op_mtlo, op_mult,
  op_multu, op_nor, op_or, op_ori, op_sb, op_sh, op_sll, op_sllv, op_slt, op_slti, op_sltiu,
  op_sltu, op_sra, op_srav, op_srl, op_srlv, op_sub, op_subu, op_sw, op_swl, op_swr, op_syscall,
  op_xor, op_xori, op_unimp, op_res, op_rfe, special, bcond, Instruction,
}
use cs350project.Hardware.Mips.Operations.{is_operation}
use cs350project.Hardware.Mips.Step.{
  Registers, Executed, completed, trapped, put, following, same_sign, difference, checked_add,
  checked_sub, set_hi_lo, divide_unsigned, load_value, load_aligned, address, execute, loaded,
  written, rewritten, narrow, merged_right, shifted_left,
}

-- The assertions of LWL, LWR, SWL and SWR, and the overflow of a division.
unfoldable pub refused : OpCode → Instruction → Registers → Bool
refused op_lwl i r = not (address i r % 4 == 0)
refused op_lwr i r = not (address i r % 4 == 0)
refused op_swl i r = not (address i r % 4 == 0)
refused op_swr i r = not (address i r % 4 == 0)
refused op_div i r = r i.rs == 2 ^ 31 && r i.rt == 2 ^ 32 - 1
refused op i r = false

abbrev pub Finishes : Option Executed → Type 0
Finishes none = ⊥
Finishes (some e) = Unit {0}

either_way : (b : Bool) (x y : Executed) → Finishes (if b then some x else some y)
either_way true x y = tt
either_way false x y = tt

checked_add-Finishes : (a b d : ℕ) (r : Registers) (m : Machine) → Finishes (checked_add a b d r m)
checked_add-Finishes a b d r m =
    let sum = (a + b) % 2 ^ 32 in
    either_way (same_sign a b && not (same_sign a sum)) (trapped r m ExceptionType.overflow 0)
      (completed (put r d sum) m (following r) 0 0)

checked_sub-Finishes : (a b d : ℕ) (r : Registers) (m : Machine) → Finishes (checked_sub a b d r m)
checked_sub-Finishes a b d r m =
    let diff = difference a b in
    either_way (not (same_sign a b) && not (same_sign a diff))
      (trapped r m ExceptionType.overflow 0) (completed (put r d diff) m (following r) 0 0)

divide_unsigned-Finishes :
    (a b : ℕ) (r : Registers) (m : Machine) → Finishes (divide_unsigned a b r m)
divide_unsigned-Finishes a b r m =
    if_both Finishes (b == 0) (set_hi_lo 0 0 r m) (set_hi_lo (a % b) (a / b) r m) tt tt

aligned : (a : ℕ) → not (a % 4 == 0) ≡ false → (a % 4 == 0) ≡ true
aligned a fine = ground (arith, fine)

loaded_all :
    (f : ℕ → ℕ) (d a : ℕ) (r : Registers) (o : Option (Machine × Outcome ℤ))
    → Served o
    → Finishes (loaded f d a r o)
unfolding Served
loaded_all f d a r none h = h
loaded_all f d a r (some (m, fault x)) h = tt
loaded_all f d a r (some (m, ok v)) h = tt

loaded-Finishes :
    (now : ℕ) (f : ℕ → ℕ) (size a d : ℕ) (r : Registers) (m : Machine)
    → is_size size ≡ true
    → HasOne m
    → Finishes (loaded f d a r (read_mem now (signed a) size m))
loaded-Finishes now f size a d r m sized one =
    loaded_all f d a r _ (read_mem-Served now (signed a) size m sized one)

load_aligned-Finishes :
    (now : ℕ) (f : ℕ → ℕ) (size a d : ℕ) (r : Registers) (m : Machine)
    → is_size size ≡ true
    → HasOne m
    → Finishes (load_aligned now f size a d r m)
load_aligned-Finishes now f size a d r m sized one =
    if_both Finishes (a % size == 0) (load_value now f size a d r m)
      (some (trapped r m ExceptionType.address_error a))
      (loaded-Finishes now f size a d r m sized one) tt

written-Finishes :
    (a : ℕ) (r : Registers) (o : Option (Machine × Outcome (Unit {0})))
    → Served o
    → Finishes (written a r o)
unfolding Served
written-Finishes a r none h = h
written-Finishes a r (some (m, fault x)) h = tt
written-Finishes a r (some (m, ok u)) h = tt

rewritten-Finishes :
    (now : ℕ) (f : ℕ → ℕ) (a : ℕ) (r : Registers) (o : Option (Machine × Outcome ℤ))
    → Served o
    → Finishes (rewritten now f a r o)
unfolding Served
rewritten-Finishes now f a r none h = h
rewritten-Finishes now f a r (some (m, fault x)) h = tt
rewritten-Finishes now f a r (some (m, ok v)) h =
    written-Finishes a r _ (write_mem-Served now (signed a) 4 _ m refl h)

pub execute-Finishes :
    (now : ℕ) (op : OpCode) (i : Instruction) (r : Registers) (m : Machine)
    → HasOne m
    → is_operation op ≡ true
    → refused op i r ≡ false
    → Finishes (execute now op i r m)
unfolding execute refused is_operation
execute-Finishes now op_add i r m one known fine = checked_add-Finishes (r i.rs) (r i.rt) i.rd r m
execute-Finishes now op_addi i r m one known fine = checked_add-Finishes i.extra (r i.rs) i.rt r m
execute-Finishes now op_addiu i r m one known fine = tt
execute-Finishes now op_addu i r m one known fine = tt
execute-Finishes now op_and i r m one known fine = tt
execute-Finishes now op_andi i r m one known fine = tt
execute-Finishes now op_beq i r m one known fine = tt
execute-Finishes now op_bgezal i r m one known fine = tt
execute-Finishes now op_bgez i r m one known fine = tt
execute-Finishes now op_bgtz i r m one known fine = tt
execute-Finishes now op_blez i r m one known fine = tt
execute-Finishes now op_bltzal i r m one known fine = tt
execute-Finishes now op_bltz i r m one known fine = tt
execute-Finishes now op_bne i r m one known fine = tt
execute-Finishes now op_div i r m one known fine = elim (Bool-cases (r i.rt == 0)) [
  | inl by_zero ↦ rw by_zero tt
  | inr other ↦ rw other (rw fine tt)
]
execute-Finishes now op_divu i r m one known fine = divide_unsigned-Finishes (r i.rs) (r i.rt) r m
execute-Finishes now op_jal i r m one known fine = tt
execute-Finishes now op_j i r m one known fine = tt
execute-Finishes now op_jalr i r m one known fine = tt
execute-Finishes now op_jr i r m one known fine = tt
execute-Finishes now op_lb i r m one known fine =
    loaded-Finishes now (narrow true 8) 1 (address i r) i.rt r m refl one
execute-Finishes now op_lbu i r m one known fine =
    loaded-Finishes now (narrow false 8) 1 (address i r) i.rt r m refl one
execute-Finishes now op_lh i r m one known fine =
    load_aligned-Finishes now (narrow true 16) 2 (address i r) i.rt r m refl one
execute-Finishes now op_lhu i r m one known fine =
    load_aligned-Finishes now (narrow false 16) 2 (address i r) i.rt r m refl one
execute-Finishes now op_lui i r m one known fine = tt
execute-Finishes now op_lw i r m one known fine =
    load_aligned-Finishes now (λ v. v) 4 (address i r) i.rt r m refl one
execute-Finishes now op_lwl i r m one known fine =
    rw (aligned (address i r) fine) (loaded-Finishes now (λ v. v) 4 (address i r) i.rt r m refl one)
execute-Finishes now op_lwr i r m one known fine =
    rw (aligned (address i r) fine)
      (loaded-Finishes now (merged_right i.rt r) 4 (address i r) i.rt r m refl one)
execute-Finishes now op_mfhi i r m one known fine = tt
execute-Finishes now op_mflo i r m one known fine = tt
execute-Finishes now op_mthi i r m one known fine = tt
execute-Finishes now op_mtlo i r m one known fine = tt
execute-Finishes now op_mult i r m one known fine = tt
execute-Finishes now op_multu i r m one known fine = tt
execute-Finishes now op_nor i r m one known fine = tt
execute-Finishes now op_or i r m one known fine = tt
execute-Finishes now op_ori i r m one known fine = tt
execute-Finishes now op_sb i r m one known fine =
    written-Finishes (address i r) r _ (write_mem-Served now _ 1 _ m refl one)
execute-Finishes now op_sh i r m one known fine =
    written-Finishes (address i r) r _ (write_mem-Served now _ 2 _ m refl one)
execute-Finishes now op_sll i r m one known fine = tt
execute-Finishes now op_sllv i r m one known fine = tt
execute-Finishes now op_slt i r m one known fine = tt
execute-Finishes now op_slti i r m one known fine = tt
execute-Finishes now op_sltiu i r m one known fine = tt
execute-Finishes now op_sltu i r m one known fine = tt
execute-Finishes now op_sra i r m one known fine = tt
execute-Finishes now op_srav i r m one known fine = tt
execute-Finishes now op_srl i r m one known fine = tt
execute-Finishes now op_srlv i r m one known fine = tt
execute-Finishes now op_sub i r m one known fine = checked_sub-Finishes (r i.rs) (r i.rt) i.rd r m
execute-Finishes now op_subu i r m one known fine = tt
execute-Finishes now op_sw i r m one known fine =
    written-Finishes (address i r) r _ (write_mem-Served now _ 4 _ m refl one)
execute-Finishes now op_swl i r m one known fine =
    rw (aligned (address i r) fine)
      (rewritten-Finishes now (λ v. r i.rt) (address i r) r _ (read_mem-Served now _ 4 m refl one))
execute-Finishes now op_swr i r m one known fine = rw (aligned (address i r) fine) (
    rewritten-Finishes now (λ v. bit_or (v % 2 ^ 24) (shifted_left 24 (r i.rt))) (address i r) r _
      (read_mem-Served now _ 4 m refl one))
execute-Finishes now op_syscall i r m one known fine = tt
execute-Finishes now op_xor i r m one known fine = tt
execute-Finishes now op_xori i r m one known fine = tt
execute-Finishes now op_unimp i r m one known fine = tt
execute-Finishes now op_res i r m one known fine = tt
execute-Finishes now op_rfe i r m one known fine = absurd (cc)
execute-Finishes now special i r m one known fine = absurd (cc)
execute-Finishes now bcond i r m one known fine = absurd (cc)
