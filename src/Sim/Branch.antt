-- ===== src/Sim/Branch.antt =====
-- Branch instructions of asm/src/qrisc-sim.cpp, from the fetch to the next program counter.
use llvm_mipt.Base.{
  ℕ, ◌+◌, ◌*◌, ◌^◌, ◌≤◌, ◌<◌, ◌≡◌, refl, ◌∙◌, ap, Bool, true, false, not, Option, none, some, List,
  String, ◌==◌, leb, if◌then◌else◌, arith,
}
use llvm_mipt.Base.Word.{add32, int32, ltℤ}
use llvm_mipt.Instr.Opcodes.{
  Opcode, op_add, op_and, op_or, op_xor, op_sub, op_mul, op_divu, op_remu, op_slt, op_sltu, op_addi,
  op_andi, op_ori, op_xori, op_subi, op_muli, op_diviu, op_remiu, op_slti, op_sltiu, op_lui, op_beq,
  op_bne, op_bgt, op_bge, op_blt, op_ble, op_load, op_store, op_jalr, of_code,
}
use llvm_mipt.Instr.{Instr, r1, r2, imm, get_opcode, is_branch, reg_pc}
use llvm_mipt.Asm.{UnresolvedLabel}
use llvm_mipt.Asm.Finalize.{Patched}
use llvm_mipt.Sim.State.{Machine, ok, update, get_pc, read_uint_from_memory}
use llvm_mipt.Sim.Exec.{exec, branch, jump_target}
use llvm_mipt.Sim.Run.{step, execute, set_pc}
use llvm_mipt.Sim.Link.{jump_target-Patched}

-- When a branch is taken, by the signed values of its two registers.
abbrev pub taken : Opcode → ℕ → ℕ → Option Bool
taken op_beq x y = some (x == y)
taken op_bne x y = some (not (x == y))
taken op_bgt x y = some (ltℤ (int32 y) (int32 x))
taken op_bge x y = some (not (ltℤ (int32 x) (int32 y)))
taken op_blt x y = some (ltℤ (int32 x) (int32 y))
taken op_ble x y = some (not (ltℤ (int32 y) (int32 x)))
taken _ x y = none

-- The machine after a branch: only the program counter has moved.
abbrev pub moved : Machine → ℕ → Machine
moved m next_pc = record m { reg = update m.reg reg_pc next_pc }

exec-branch :
    (o : Opcode) (pc : ℕ) (ins : Instr) (m : Machine) (c : Bool)
    → taken o (m.reg (r1 ins)) (m.reg (r2 ins)) ≡ some c
    → exec o pc ins m ≡ branch c pc ins m
unfolding exec
exec-branch op_beq pc ins m c h = ap (λ b. branch b pc ins m) (cc h)
exec-branch op_bne pc ins m c h = ap (λ b. branch b pc ins m) (cc h)
exec-branch op_bgt pc ins m c h = ap (λ b. branch b pc ins m) (cc h)
exec-branch op_bge pc ins m c h = ap (λ b. branch b pc ins m) (cc h)
exec-branch op_blt pc ins m c h = ap (λ b. branch b pc ins m) (cc h)
exec-branch op_ble pc ins m c h = ap (λ b. branch b pc ins m) (cc h)
exec-branch op_add pc ins m c h = cc
exec-branch op_and pc ins m c h = cc
exec-branch op_or pc ins m c h = cc
exec-branch op_xor pc ins m c h = cc
exec-branch op_sub pc ins m c h = cc
exec-branch op_mul pc ins m c h = cc
exec-branch op_divu pc ins m c h = cc
exec-branch op_remu pc ins m c h = cc
exec-branch op_slt pc ins m c h = cc
exec-branch op_sltu pc ins m c h = cc
exec-branch op_addi pc ins m c h = cc
exec-branch op_andi pc ins m c h = cc
exec-branch op_ori pc ins m c h = cc
exec-branch op_xori pc ins m c h = cc
exec-branch op_subi pc ins m c h = cc
exec-branch op_muli pc ins m c h = cc
exec-branch op_diviu pc ins m c h = cc
exec-branch op_remiu pc ins m c h = cc
exec-branch op_slti pc ins m c h = cc
exec-branch op_sltiu pc ins m c h = cc
exec-branch op_lui pc ins m c h = cc
exec-branch op_load pc ins m c h = cc
exec-branch op_store pc ins m c h = cc
exec-branch op_jalr pc ins m c h = cc

branch-taken :
    (c : Bool) (pc v : ℕ) (ins : Instr) (m : Machine)
    → imm ins ≡ some v
    → branch c pc ins m ≡ ok (m, if c then jump_target pc v else add32 pc 4)
unfolding branch
branch-taken true pc v ins m h = rw h
branch-taken false pc v ins m h = refl

set_pc-moved :
    (m : Machine) (next_pc : ℕ) → next_pc < m.mem_size → set_pc m next_pc ≡ ok (moved m next_pc)
unfolding set_pc
set_pc-moved m next_pc h = let inside : leb m.mem_size next_pc ≡ false = ground arith in rw inside

-- One round on a branch instruction, for each of the six and each outcome of its test, where the
-- next address is inside the memory: the program counter goes to the target or to the next
-- instruction, and nothing else changes.
step-branch :
    (m : Machine) (ins : Instr) (o : Opcode) (c : Bool) (v next_pc : ℕ)
    → read_uint_from_memory (get_pc m) m ≡ ok ins.encoding
    → of_code (get_opcode ins) ≡ some o
    → taken o (m.reg (r1 ins)) (m.reg (r2 ins)) ≡ some c
    → imm ins ≡ some v
    → (if c then jump_target (get_pc m) v else add32 (get_pc m) 4) ≡ next_pc
    → next_pc < m.mem_size
    → step m ≡ ok (moved m next_pc)
unfolding step execute
step-branch m ins o c v next_pc fetch op t e to inside =
    rw
      (
        fetch,
        op,
        exec-branch o (get_pc m) ins m c t,
        branch-taken c (get_pc m) v ins m e,
        to,
        step,
        execute,
      )
      (set_pc-moved m next_pc inside)

-- The interpreter follows the assembler's labels: at a branch that `finalize` has patched, when the
-- test holds, one round goes to the address of the label. The label is less than 2 ^ 15
-- instructions away, and its address is inside the memory.
pub step-Patched :
    (labels : List (String × ℕ)) (is js : List Instr) (u : UnresolvedLabel)
    (p : Patched labels is js u) (m : Machine) (o : Opcode)
    → is_branch p.user ≡ true
    → p.target < 2 ^ 30
    → u.instr_idx < 2 ^ 30
    → p.target < u.instr_idx + 2 ^ 15
    → u.instr_idx ≤ p.target + 2 ^ 15
    → get_pc m ≡ u.instr_idx * 4
    → read_uint_from_memory (u.instr_idx * 4) m ≡ ok p.patch.encoding
    → of_code (get_opcode p.patch) ≡ some o
    → taken o (m.reg (r1 p.patch)) (m.reg (r2 p.patch)) ≡ some true
    → p.target * 4 < m.mem_size
    → step m ≡ ok (moved m (p.target * 4))
step-Patched labels is js u p m o b ht hi up down at fetch op t inside =
    let (v, e, to) = jump_target-Patched labels is js u p (ground arith) ht hi up down in
    step-branch m p.patch o true v (p.target * 4) (rw at fetch) op t e
      (ap (λ a. jump_target a v) at ∙ to) inside
