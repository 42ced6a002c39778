-- ===== src/Jit/Emit.antt =====
-- The chain of tests on the opcode in `simulate`: the code of one instruction, without its control
-- flow.
use llvm_mipt.Base.{ℕ, Bool, true, false, Option, none, some, ◌==◌, ltb, if◌then◌else◌}
use llvm_mipt.Instr.Opcodes.{
  InstrType, invalid, Opcode, op_add, op_and, op_or, op_xor, op_sub, op_mul, op_divu, op_remu,
  op_slt, op_sltu, op_addi, op_andi, op_ori, op_xori, op_subi, op_muli, op_diviu, op_remiu, op_slti,
  op_sltiu, op_lui, op_beq, op_bne, op_bgt, op_bge, op_blt, op_ble, op_load, op_store, op_jalr,
}
use llvm_mipt.Instr.{Instr, reg_zero, reg_pc, reg_count, r1, r2, r3, imm, get_type}
use llvm_mipt.Jit.Builder.{
  Builder, BinaryOp, add_bin, and_bin, or_bin, xor_bin, sub_bin, mul_bin, udiv_bin, urem_bin,
  Predicate, eq_pred, sgt_pred, sge_pred, slt_pred, sle_pred, ult_pred, Emission, made, ◌>>=◌,
  or_refuse, check, failed_assert,
}

abbrev pub is_invalid : InstrType → Bool
is_invalid invalid = true
is_invalid _ = false

module _ (b : Builder) where
  open b use {
    Code, Value, get_int32, create_load, create_store, create_binary, create_shl, create_icmp,
    create_zext, call_load, call_store,
  }

  -- The lambda `readReg`; the last number is `InstrPC`.
  unfoldable pub read_reg : ℕ → ℕ → Code → Emission (Value × Code)
  read_reg idx pc c = check (ltb idx reg_count) failed_assert (
      if idx == reg_zero
      then (get_int32 0, c)
      else if idx == reg_pc
      then (get_int32 pc, c)
      else create_load idx c)

  -- The lambda `writeReg`.
  unfoldable pub write_reg : ℕ → Value → Code → Emission Code
  write_reg idx v c =
      check (ltb idx reg_count) failed_assert (if idx == reg_zero then c else create_store v idx c)

  unfoldable pub emit_r : BinaryOp → Instr → ℕ → Code → Emission Code
  emit_r op ins pc c = do
    x ← read_reg (r2 ins) pc c
    i ← or_refuse (r3 ins) failed_assert
    y ← read_reg i pc x.1
    let z = create_binary op x.0 y.0 y.1
    write_reg (r1 ins) z.0 z.1

  unfoldable pub emit_i : BinaryOp → Instr → ℕ → Code → Emission Code
  emit_i op ins pc c = do
    x ← read_reg (r2 ins) pc c
    i ← or_refuse (imm ins) failed_assert
    let z = create_binary op x.0 (get_int32 i) x.1
    write_reg (r1 ins) z.0 z.1

  -- A comparison of the first two registers.
  unfoldable pub emit_icmp : Predicate → Instr → ℕ → Code → Emission (Value × Code)
  emit_icmp p ins pc c = do
    x ← read_reg (r1 ins) pc c
    y ← read_reg (r2 ins) pc x.1
    made (create_icmp p x.0 y.0 y.1)

  unfoldable pub emit_slt : Predicate → Instr → ℕ → Code → Emission Code
  emit_slt p ins pc c = do
    x ← emit_icmp p ins pc c
    let z = create_zext x.0 x.1
    write_reg (r1 ins) z.0 z.1

  -- The first register is compared with the immediate.
  unfoldable pub emit_slti : Predicate → Instr → ℕ → Code → Emission Code
  emit_slti p ins pc c = do
    x ← read_reg (r1 ins) pc c
    i ← or_refuse (imm ins) failed_assert
    let y = create_icmp p x.0 (get_int32 i) x.1
    let z = create_zext y.0 y.1
    write_reg (r1 ins) z.0 z.1

  unfoldable pub emit_lui : Instr → ℕ → Code → Emission Code
  emit_lui ins pc c = do
    i ← or_refuse (imm ins) failed_assert
    let shifted = create_shl (get_int32 i) (get_int32 16) c
    x ← read_reg (r2 ins) pc shifted.1
    let low = create_binary and_bin x.0 (get_int32 0xffff) x.1
    let z = create_binary or_bin low.0 shifted.0 low.1
    write_reg (r1 ins) z.0 z.1

  -- `Addr`
  unfoldable pub emit_addr : Instr → ℕ → Code → Emission (Value × Code)
  emit_addr ins pc c = do
    x ← read_reg (r2 ins) pc c
    i ← or_refuse (imm ins) failed_assert
    made (create_binary add_bin x.0 (get_int32 i) x.1)

  unfoldable pub emit_load : Instr → ℕ → Code → Emission Code
  emit_load ins pc c = do
    a ← emit_addr ins pc c
    let z = call_load a.0 a.1
    write_reg (r1 ins) z.0 z.1

  unfoldable pub emit_store : Instr → ℕ → Code → Emission Code
  emit_store ins pc c = do
    a ← emit_addr ins pc c
    x ← read_reg (r1 ins) pc a.1
    made (call_store x.0 a.0 x.1)

  abbrev pub no_cond : Emission Code → Emission (Option Value × Code)
  no_cond e = e >>= λ c. made (none, c)

  abbrev pub with_cond : Emission (Value × Code) → Emission (Option Value × Code)
  with_cond e = e >>= λ x. made (some x.0, x.1)

  -- The last branch of the chain, for what no test has recognised.
  abbrev pub unhandled : Instr → Code → Emission (Option Value × Code)
  unhandled ins c = check (is_invalid (get_type ins)) failed_assert (none, c)

  -- `BranchCond` and the code. The test for `bne` compares with `OPCODE_BEQ` once more, and so it
  -- never holds.
  unfoldable pub emit_instr : Option Opcode → Instr → ℕ → Code → Emission (Option Value × Code)
  emit_instr (some op_add) ins pc c = no_cond (emit_r add_bin ins pc c)
  emit_instr (some op_and) ins pc c = no_cond (emit_r and_bin ins pc c)
  emit_instr (some op_or) ins pc c = no_cond (emit_r or_bin ins pc c)
  emit_instr (some op_xor) ins pc c = no_cond (emit_r xor_bin ins pc c)
  emit_instr (some op_sub) ins pc c = no_cond (emit_r sub_bin ins pc c)
  emit_instr (some op_mul) ins pc c = no_cond (emit_r mul_bin ins pc c)
  emit_instr (some op_divu) ins pc c = no_cond (emit_r udiv_bin ins pc c)
  emit_instr (some op_remu) ins pc c = no_cond (emit_r urem_bin ins pc c)
  emit_instr (some op_slt) ins pc c = no_cond (emit_slt slt_pred ins pc c)
  emit_instr (some op_sltu) ins pc c = no_cond (emit_slt ult_pred ins pc c)
  emit_instr (some op_addi) ins pc c = no_cond (emit_i add_bin ins pc c)
  emit_instr (some op_andi) ins pc c = no_cond (emit_i and_bin ins pc c)
  emit_instr (some op_ori) ins pc c = no_cond (emit_i or_bin ins pc c)
  emit_instr (some op_xori) ins pc c = no_cond (emit_i xor_bin ins pc c)
  emit_instr (some op_subi) ins pc c = no_cond (emit_i sub_bin ins pc c)
  emit_instr (some op_muli) ins pc c = no_cond (emit_i mul_bin ins pc c)
  emit_instr (some op_diviu) ins pc c = no_cond (emit_i udiv_bin ins pc c)
  emit_instr (some op_remiu) ins pc c = no_cond (emit_i urem_bin ins pc c)
  emit_instr (some op_slti) ins pc c = no_cond (emit_slti slt_pred ins pc c)
  emit_instr (some op_sltiu) ins pc c = no_cond (emit_slti ult_pred ins pc c)
  emit_instr (some op_lui) ins pc c = no_cond (emit_lui ins pc c)
  emit_instr (some op_load) ins pc c = no_cond (emit_load ins pc c)
  emit_instr (some op_store) ins pc c = no_cond (emit_store ins pc c)
  emit_instr (some op_beq) ins pc c = with_cond (emit_icmp eq_pred ins pc c)
  emit_instr (some op_bgt) ins pc c = with_cond (emit_icmp sgt_pred ins pc c)
  emit_instr (some op_bge) ins pc c = with_cond (emit_icmp sge_pred ins pc c)
  emit_instr (some op_blt) ins pc c = with_cond (emit_icmp slt_pred ins pc c)
  emit_instr (some op_ble) ins pc c = with_cond (emit_icmp sle_pred ins pc c)
  emit_instr (some op_jalr) ins pc c = made (none, c)
  emit_instr (some op_bne) ins pc c = unhandled ins c
  emit_instr none ins pc c = unhandled ins c
