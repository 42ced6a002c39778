-- ===== src/Sim/Exec.antt =====
-- The `switch` of `Simulator::run` in asm/src/qrisc-sim.cpp, one clause to a `case`: the machine
-- after the instruction and `NextPC`.
use llvm_mipt.Base.{ℕ, ◌/◌, ◌%◌, Bool, not, ◌==◌, ltb, if◌then◌else◌, bit_and, bit_or, bit_xor}
use llvm_mipt.Base.Word.{add32, sub32, mul32, shl32, int32, to_u32, times_four, slt, sle}
use llvm_mipt.Instr.Opcodes.{
  Opcode, op_add, op_addi, op_and, op_andi, op_or, op_ori, op_xor, op_xori, op_sub, op_subi, op_mul,
  op_muli, op_divu, op_diviu, op_remu, op_remiu, op_slt, op_sltu, op_slti, op_sltiu, op_lui,
  op_load, op_store, op_beq, op_bne, op_bgt, op_bge, op_blt, op_ble, op_jalr,
}
use llvm_mipt.Instr.{Instr, r1, r2, r3, imm}
use llvm_mipt.Sim.State.{Machine, Outcome, ok, stop, ◌>>=◌, or_assert, division_by_zero, write_reg}
use llvm_mipt.Sim.Device.{handle_load, handle_store}

-- Unsigned `/` and `%`; division by 0 is undefined behaviour.
abbrev pub divu : ℕ → ℕ → Outcome ℕ
divu a b = if b == 0 then stop division_by_zero else ok (a / b)

abbrev pub remu : ℕ → ℕ → Outcome ℕ
remu a b = if b == 0 then stop division_by_zero else ok (a % b)

abbrev pub flag : Bool → ℕ
flag b = if b then 1 else 0

abbrev pub pure : (ℕ → ℕ → ℕ) → ℕ → ℕ → Outcome ℕ
pure f a b = ok (f a b)

-- `writeReg(Ins.r1(), RegFile[Ins.r2()] <op> RegFile[Ins.r3()])`
unfoldable pub r_op : (ℕ → ℕ → Outcome ℕ) → Instr → Machine → Outcome Machine
r_op f ins m = do c ← or_assert (r3 ins); v ← f (m.reg (r2 ins)) (m.reg c); write_reg (r1 ins) v m

-- `writeReg(Ins.r1(), RegFile[Ins.r2()] <op> Ins.imm())`
unfoldable pub i_op : (ℕ → ℕ → Outcome ℕ) → Instr → Machine → Outcome Machine
i_op f ins m = do i ← or_assert (imm ins); v ← f (m.reg (r2 ins)) i; write_reg (r1 ins) v m

-- `base + ((int32_t)Ins.imm()) * 4`
unfoldable pub jump_target : ℕ → ℕ → ℕ
jump_target base i = add32 base (to_u32 (times_four (int32 i)))

abbrev pub advance : ℕ → Outcome Machine → Outcome (Machine × ℕ)
advance pc r = r >>= λ m. ok (m, add32 pc 4)

unfoldable pub branch : Bool → ℕ → Instr → Machine → Outcome (Machine × ℕ)
branch cond pc ins m =
    if cond then (or_assert (imm ins) >>= λ i. ok (m, jump_target pc i)) else ok (m, add32 pc 4)

unfoldable pub jalr : ℕ → Instr → Machine → Outcome (Machine × ℕ)
jalr pc ins m = do
  i ← or_assert (imm ins)
  let next_pc = jump_target (m.reg (r2 ins)) i
  m' ← write_reg (r1 ins) pc m
  ok (m', next_pc)

unfoldable pub exec : Opcode → ℕ → Instr → Machine → Outcome (Machine × ℕ)
exec op_add pc ins m = advance pc (r_op (pure add32) ins m)
exec op_addi pc ins m = advance pc (i_op (pure add32) ins m)
exec op_and pc ins m = advance pc (r_op (pure bit_and) ins m)
exec op_andi pc ins m = advance pc (i_op (pure bit_and) ins m)
exec op_or pc ins m = advance pc (r_op (pure bit_or) ins m)
exec op_ori pc ins m = advance pc (i_op (pure bit_or) ins m)
exec op_xor pc ins m = advance pc (r_op (pure bit_xor) ins m)
exec op_xori pc ins m = advance pc (i_op (pure bit_xor) ins m)
exec op_sub pc ins m = advance pc (r_op (pure sub32) ins m)
exec op_subi pc ins m = advance pc (i_op (pure sub32) ins m)
exec op_mul pc ins m = advance pc (r_op (pure mul32) ins m)
exec op_muli pc ins m = advance pc (i_op (pure mul32) ins m)
exec op_divu pc ins m = advance pc (r_op divu ins m)
exec op_diviu pc ins m = advance pc (i_op divu ins m)
exec op_remu pc ins m = advance pc (r_op remu ins m)
exec op_remiu pc ins m = advance pc (i_op remu ins m)
exec op_slt pc ins m = advance pc (r_op (pure (λ a b. flag (slt a b))) ins m)
exec op_slti pc ins m = advance pc (i_op (pure (λ a b. flag (slt a b))) ins m)
exec op_sltu pc ins m = advance pc (r_op (pure (λ a b. flag (ltb a b))) ins m)
exec op_sltiu pc ins m = advance pc (i_op (pure (λ a b. flag (ltb a b))) ins m)
exec op_lui pc ins m = advance pc (i_op (pure (λ a b. bit_or a (shl32 b 16))) ins m)
exec op_load pc ins m = advance pc (handle_load ins m)
exec op_store pc ins m = advance pc (handle_store ins m)
exec op_beq pc ins m = branch (m.reg (r1 ins) == m.reg (r2 ins)) pc ins m
exec op_bne pc ins m = branch (not (m.reg (r1 ins) == m.reg (r2 ins))) pc ins m
exec op_bgt pc ins m = branch (slt (m.reg (r2 ins)) (m.reg (r1 ins))) pc ins m
exec op_bge pc ins m = branch (sle (m.reg (r2 ins)) (m.reg (r1 ins))) pc ins m
exec op_blt pc ins m = branch (slt (m.reg (r1 ins)) (m.reg (r2 ins))) pc ins m
exec op_ble pc ins m = branch (sle (m.reg (r1 ins)) (m.reg (r2 ins))) pc ins m
exec op_jalr pc ins m = jalr pc ins m
