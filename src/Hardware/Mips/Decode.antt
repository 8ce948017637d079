-- ===== src/Hardware/Mips/Decode.antt =====
-- Instruction::Decode of machine/mipssim.cc, with the tables of machine/mipssim.h. An instruction is its
-- 32 bits.
use cs350project.Prelude.{
  ℕ, ◌+◌, ◌-◌, ◌/◌, ◌%◌, ◌^◌, leb, ◌==◌, if◌then◌else◌, List, [], ◌∷◌, get_or,
}

-- The operations, then the codes for further decoding.
pub data OpCode : Type 0 where
  op_add : OpCode
  op_addi : OpCode
  op_addiu : OpCode
  op_addu : OpCode
  op_and : OpCode
  op_andi : OpCode
  op_beq : OpCode
  op_bgez : OpCode
  op_bgezal : OpCode
  op_bgtz : OpCode
  op_blez : OpCode
  op_bltz : OpCode
  op_bltzal : OpCode
  op_bne : OpCode
  op_div : OpCode
  op_divu : OpCode
  op_j : OpCode
  op_jal : OpCode
  op_jalr : OpCode
  op_jr : OpCode
  op_lb : OpCode
  op_lbu : OpCode
  op_lh : OpCode
  op_lhu : OpCode
  op_lui : OpCode
  op_lw : OpCode
  op_lwl : OpCode
  op_lwr : OpCode
  op_mfhi : OpCode
  op_mflo : OpCode
  op_mthi : OpCode
  op_mtlo : OpCode
  op_mult : OpCode
  op_multu : OpCode
  op_nor : OpCode
  op_or : OpCode
  op_ori : OpCode
  op_rfe : OpCode
  op_sb : OpCode
  op_sh : OpCode
  op_sll : OpCode
  op_sllv : OpCode
  op_slt : OpCode
  op_slti : OpCode
  op_sltiu : OpCode
  op_sltu : OpCode
  op_sra : OpCode
  op_srav : OpCode
  op_srl : OpCode
  op_srlv : OpCode
  op_sub : OpCode
  op_subu : OpCode
  op_sw : OpCode
  op_swl : OpCode
  op_swr : OpCode
  op_xor : OpCode
  op_xori : OpCode
  op_syscall : OpCode
  op_unimp : OpCode
  op_res : OpCode
  special : OpCode
  bcond : OpCode

pub data Format : Type 0 where
  ifmt : Format
  jfmt : Format
  rfmt : Format

-- opTable, which bits 31 to 26 index, and specialTable, which the lowest six bits index.
abbrev pub op_table : List (OpCode × Format)
op_table =
    (special, rfmt)
    ∷ (bcond, ifmt)
    ∷ (op_j, jfmt)
    ∷ (op_jal, jfmt)
    ∷ (op_beq, ifmt)
    ∷ (op_bne, ifmt)
    ∷ (op_blez, ifmt)
    ∷ (op_bgtz, ifmt)
    ∷ (op_addi, ifmt)
    ∷ (op_addiu, ifmt)
    ∷ (op_slti, ifmt)
    ∷ (op_sltiu, ifmt)
    ∷ (op_andi, ifmt)
    ∷ (op_ori, ifmt)
    ∷ (op_xori, ifmt)
    ∷ (op_lui, ifmt)
    ∷ (op_unimp, ifmt)
    ∷ (op_unimp, ifmt)
    ∷ (op_unimp, ifmt)
    ∷ (op_unimp, ifmt)
    ∷ (op_res, ifmt)
    ∷ (op_res, ifmt)
    ∷ (op_res, ifmt)
    ∷ (op_res, ifmt)
    ∷ (op_res, ifmt)
    ∷ (op_res, ifmt)
    ∷ (op_res, ifmt)
    ∷ (op_res, ifmt)
    ∷ (op_res, ifmt)
    ∷ (op_res, ifmt)
    ∷ (op_res, ifmt)
    ∷ (op_res, ifmt)
    ∷ (op_lb, ifmt)
    ∷ (op_lh, ifmt)
    ∷ (op_lwl, ifmt)
    ∷ (op_lw, ifmt)
    ∷ (op_lbu, ifmt)
    ∷ (op_lhu, ifmt)
    ∷ (op_lwr, ifmt)
    ∷ (op_res, ifmt)
    ∷ (op_sb, ifmt)
    ∷ (op_sh, ifmt)
    ∷ (op_swl, ifmt)
    ∷ (op_sw, ifmt)
    ∷ (op_res, ifmt)
    ∷ (op_res, ifmt)
    ∷ (op_swr, ifmt)
    ∷ (op_res, ifmt)
    ∷ (op_unimp, ifmt)
    ∷ (op_unimp, ifmt)
    ∷ (op_unimp, ifmt)
    ∷ (op_unimp, ifmt)
    ∷ (op_res, ifmt)
    ∷ (op_res, ifmt)
    ∷ (op_res, ifmt)
    ∷ (op_res, ifmt)
    ∷ (op_unimp, ifmt)
    ∷ (op_unimp, ifmt)
    ∷ (op_unimp, ifmt)
    ∷ (op_unimp, ifmt)
    ∷ (op_res, ifmt)
    ∷ (op_res, ifmt)
    ∷ (op_res, ifmt)
    ∷ (op_res, ifmt)
    ∷ []

abbrev pub special_table : List OpCode
special_table =
    op_sll ∷ op_res ∷ op_srl ∷ op_sra ∷ op_sllv ∷ op_res ∷ op_srlv ∷ op_srav ∷ op_jr ∷ op_jalr
    ∷ op_res ∷ op_res ∷ op_syscall ∷ op_unimp ∷ op_res ∷ op_res ∷ op_mfhi ∷ op_mthi ∷ op_mflo
    ∷ op_mtlo ∷ op_res ∷ op_res ∷ op_res ∷ op_res ∷ op_mult ∷ op_multu ∷ op_div ∷ op_divu ∷ op_res
    ∷ op_res ∷ op_res ∷ op_res ∷ op_add ∷ op_addu ∷ op_sub ∷ op_subu ∷ op_and ∷ op_or ∷ op_xor
    ∷ op_nor ∷ op_res ∷ op_res ∷ op_slt ∷ op_sltu ∷ op_res ∷ op_res ∷ op_res ∷ op_res ∷ op_res
    ∷ op_res ∷ op_res ∷ op_res ∷ op_res ∷ op_res ∷ op_res ∷ op_res ∷ op_res ∷ op_res ∷ op_res
    ∷ op_res ∷ op_res ∷ op_res ∷ op_res ∷ op_res ∷ []

pub record Instruction : Type 0 where
  pub op_code : OpCode
  pub rs : ℕ
  pub rt : ℕ
  pub rd : ℕ
  pub extra : ℕ

-- The immediate is sign-extended, the shift amount and the target are not.
abbrev pub extra_of : Format → ℕ → ℕ
extra_of ifmt w = let low = w % 2 ^ 16 in if leb (2 ^ 15) low then low + (2 ^ 32 - 2 ^ 16) else low
extra_of rfmt w = w / 2 ^ 6 % 32
extra_of jfmt w = w % 2 ^ 26

-- The condition in the bits that name rt otherwise.
abbrev pub condition_of : ℕ → OpCode
condition_of c =
    if c == 0
    then op_bltz
    else if c == 1
    then op_bgez
    else if c == 16
    then op_bltzal
    else if c == 17
    then op_bgezal
    else op_unimp

abbrev pub op_code_of : OpCode → ℕ → OpCode
op_code_of special w = get_or special_table (w % 64) op_res
op_code_of bcond w = condition_of (w / 2 ^ 16 % 32)
op_code_of op w = op

-- `Decode`
unfoldable pub decode : ℕ → Instruction
decode w =
    let (op, format) = get_or op_table (w / 2 ^ 26 % 64) (op_unimp, ifmt) in
    record {
      op_code = op_code_of op w;
      rs = w / 2 ^ 21 % 32;
      rt = w / 2 ^ 16 % 32;
      rd = w / 2 ^ 11 % 32;
      extra = extra_of format w;
    }
