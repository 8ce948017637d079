-- ===== src/Hardware/Mips/Operations.antt =====
-- Every word decodes to an operation that OneInstruction of machine/mipssim.cc knows.
use cs350project.Prelude.{
  ℕ, zero, suc, ◌/◌, ◌%◌, ◌^◌, ◌≡◌, refl, arith, ◌&&◌, Bool, true, false, List, [], ◌∷◌, get_or,
}
use cs350project.Hardware.Mips.Decode.{
  OpCode, op_add, op_addi, op_addiu, op_addu, op_and, op_andi, op_beq, op_bgezal, op_bgez, op_bgtz,
  op_blez, op_bltzal, op_bltz, op_bne, op_div, op_divu, op_jal, op_j, op_jalr, op_jr, op_lb, op_lbu,
  op_lh, op_lhu, op_lui, op_lw, op_lwl, op_lwr, op_mfhi, op_mflo, op_mthi, op_mtlo, op_mult,
  op_multu, op_nor, op_or, op_ori, op_sb, op_sh, op_sll, op_sllv, op_slt, op_slti, op_sltiu,
  op_sltu, op_sra, op_srav, op_srl, op_srlv, op_sub, op_subu, op_sw, op_swl, op_swr, op_syscall,
  op_xor, op_xori, op_unimp, op_res, op_rfe, special, bcond, decode, op_table, special_table,
  op_code_of, condition_of, Format, ifmt,
}

-- The codes that the switch has a case for, and those that the tables have.
unfoldable pub is_operation : OpCode → Bool
is_operation op_rfe = false
is_operation special = false
is_operation bcond = false
is_operation op = true

unfoldable is_code : OpCode → Bool
is_code op_rfe = false
is_code op = true

all_hold {ℓ} : {A : Type ℓ} → (A → Bool) → List A → Bool
all_hold p [] = true
all_hold p (x ∷ xs) = p x && all_hold p xs

get_or-hold {ℓ} :
    {A : Type ℓ} (p : A → Bool) (xs : List A) (i : ℕ) (d : A)
    → all_hold p xs ≡ true
    → p d ≡ true
    → p (get_or xs i d) ≡ true
unfolding all_hold
get_or-hold p [] i d h hd = hd
get_or-hold p (x ∷ xs) zero d h hd = ground (arith, h)
get_or-hold p (x ∷ xs) (suc i) d h hd = get_or-hold p xs i d (ground (arith, h)) hd

condition_of-operation : (c : ℕ) → is_operation (condition_of c) ≡ true
unfolding is_operation
condition_of-operation c = ground arith

op_code_of-operation :
    (op : OpCode) (w : ℕ) → is_code op ≡ true → is_operation (op_code_of op w) ≡ true
unfolding is_operation is_code all_hold
op_code_of-operation op_add w h = refl
op_code_of-operation op_addi w h = refl
op_code_of-operation op_addiu w h = refl
op_code_of-operation op_addu w h = refl
op_code_of-operation op_and w h = refl
op_code_of-operation op_andi w h = refl
op_code_of-operation op_beq w h = refl
op_code_of-operation op_bgezal w h = refl
op_code_of-operation op_bgez w h = refl
op_code_of-operation op_bgtz w h = refl
op_code_of-operation op_blez w h = refl
op_code_of-operation op_bltzal w h = refl
op_code_of-operation op_bltz w h = refl
op_code_of-operation op_bne w h = refl
op_code_of-operation op_div w h = refl
op_code_of-operation op_divu w h = refl
op_code_of-operation op_jal w h = refl
op_code_of-operation op_j w h = refl
op_code_of-operation op_jalr w h = refl
op_code_of-operation op_jr w h = refl
op_code_of-operation op_lb w h = refl
op_code_of-operation op_lbu w h = refl
op_code_of-operation op_lh w h = refl
op_code_of-operation op_lhu w h = refl
op_code_of-operation op_lui w h = refl
op_code_of-operation op_lw w h = refl
op_code_of-operation op_lwl w h = refl
op_code_of-operation op_lwr w h = refl
op_code_of-operation op_mfhi w h = refl
op_code_of-operation op_mflo w h = refl
op_code_of-operation op_mthi w h = refl
op_code_of-operation op_mtlo w h = refl
op_code_of-operation op_mult w h = refl
op_code_of-operation op_multu w h = refl
op_code_of-operation op_nor w h = refl
op_code_of-operation op_or w h = refl
op_code_of-operation op_ori w h = refl
op_code_of-operation op_sb w h = refl
op_code_of-operation op_sh w h = refl
op_code_of-operation op_sll w h = refl
op_code_of-operation op_sllv w h = refl
op_code_of-operation op_slt w h = refl
op_code_of-operation op_slti w h = refl
op_code_of-operation op_sltiu w h = refl
op_code_of-operation op_sltu w h = refl
op_code_of-operation op_sra w h = refl
op_code_of-operation op_srav w h = refl
op_code_of-operation op_srl w h = refl
op_code_of-operation op_srlv w h = refl
op_code_of-operation op_sub w h = refl
op_code_of-operation op_subu w h = refl
op_code_of-operation op_sw w h = refl
op_code_of-operation op_swl w h = refl
op_code_of-operation op_swr w h = refl
op_code_of-operation op_syscall w h = refl
op_code_of-operation op_xor w h = refl
op_code_of-operation op_xori w h = refl
op_code_of-operation op_unimp w h = refl
op_code_of-operation op_res w h = refl
op_code_of-operation op_rfe w h = absurd (cc)
op_code_of-operation special w h = get_or-hold is_operation special_table (w % 64) op_res refl refl
op_code_of-operation bcond w h = condition_of-operation (w / 2 ^ 16 % 32)

pub decode-operation : (w : ℕ) → is_operation (decode w).op_code ≡ true
unfolding decode is_code all_hold
decode-operation w = op_code_of-operation (get_or op_table (w / 2 ^ 26 % 64) (op_unimp, ifmt)).0 w (
    get_or-hold (λ (e : OpCode × Format). is_code e.0) op_table (w / 2 ^ 26 % 64) (op_unimp, ifmt)
      refl refl)
