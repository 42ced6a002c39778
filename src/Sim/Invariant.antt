-- ===== src/Sim/Invariant.antt =====
-- The invariant of the interpreter of asm/src/qrisc-sim.cpp over the rounds of its loop.
pub mod Parts
pub mod Devices
pub mod Steps
use llvm_mipt.Base.{
  ℕ, zero, suc, ◌+◌, ◌*◌, ◌/◌, ◌%◌, ◌^◌, ◌≤◌, ◌<◌, ◌≡◌, ◌≢◌, refl, sym, ◌∙◌, ap, Bool, true, false,
  Option, none, some, List, ◌==◌, ltb, leb, if◌then◌else◌, arith, Bool-cases, Option-cases, inl,
  inr, ◌⊎◌, bit_and, bit_or, bit_xor,
}
use llvm_mipt.Base.Bits.{bit_and-lt, bit_or-lt, bit_xor-lt}
use llvm_mipt.Base.Word.{add32, sub32, mul32, shl32, slt}
use llvm_mipt.Instr.Opcodes.{
  Opcode, op_add, op_addi, op_and, op_andi, op_or, op_ori, op_xor, op_xori, op_sub, op_subi, op_mul,
  op_muli, op_divu, op_diviu, op_remu, op_remiu, op_slt, op_sltu, op_slti, op_sltiu, op_lui,
  op_load, op_store, op_beq, op_bne, op_bgt, op_bge, op_blt, op_ble, op_jalr, type_of, of_code,
  get_instr_type,
}
use llvm_mipt.Instr.{Instr, get_opcode, get_type, is_i, reg_pc}
use llvm_mipt.Sim.State.{
  Machine, Outcome, ok, stop, Stop, ◌>>=◌, assert_failed, get_pc, read_uint_from_memory, trap,
  illegal_opcode, illegal_jump,
}
use llvm_mipt.Sim.Exec.{exec, divu, remu, flag, pure}
use llvm_mipt.Sim.Run.{step, execute, set_pc, run_loop, RunResult, halted, stopped, out_of_fuel}
use Parts.{
  IsValid, Safe, Safe-bind, Keeps, Moves, IsWord, write_reg-Safe, read_uint-Safe, write_uint-Safe,
}
use Devices.{imm-Safe, if-Safe, handle_load-Safe, handle_store-Safe}
use Steps.{
  IsWordOp, r_op-Safe, i_op-Safe, advance-Safe, branch-Safe, jalr-Safe, Advances, set_pc-Safe,
}

divu-IsWordOp : IsWordOp divu
divu-IsWordOp a b ha hb = ground arith

remu-IsWordOp : IsWordOp remu
remu-IsWordOp a b ha hb = ground arith

flag-IsWord : (b : Bool) → flag b < 2 ^ 32
flag-IsWord true = omega arith
flag-IsWord false = omega arith

lui-IsWordOp : IsWordOp (pure (λ a b. bit_or a (shl32 b 16)))
lui-IsWordOp a b ha hb = bit_or-lt 32 a (shl32 b 16) ha (omega arith)

exec-Safe :
    (o : Opcode) (pc : ℕ) (ins : Instr) (m : Machine)
    → get_type ins ≡ type_of o
    → pc < 2 ^ 32
    → IsValid m
    → Safe (Moves m) (exec o pc ins m)
unfolding exec
exec-Safe op_add pc ins m t h v =
    advance-Safe pc m _ (r_op-Safe _ ins m (λ a b ha hb. omega arith) t v)
exec-Safe op_addi pc ins m t h v =
    advance-Safe pc m _ (i_op-Safe _ ins m (λ a b ha hb. omega arith) (ap is_i t) v)
exec-Safe op_and pc ins m t h v =
    advance-Safe pc m _ (r_op-Safe _ ins m (λ a b ha hb. bit_and-lt 32 a b ha) t v)
exec-Safe op_andi pc ins m t h v =
    advance-Safe pc m _ (i_op-Safe _ ins m (λ a b ha hb. bit_and-lt 32 a b ha) (ap is_i t) v)
exec-Safe op_or pc ins m t h v = advance-Safe pc m _ (r_op-Safe _ ins m (bit_or-lt 32) t v)
exec-Safe op_ori pc ins m t h v =
    advance-Safe pc m _ (i_op-Safe _ ins m (bit_or-lt 32) (ap is_i t) v)
exec-Safe op_xor pc ins m t h v = advance-Safe pc m _ (r_op-Safe _ ins m (bit_xor-lt 32) t v)
exec-Safe op_xori pc ins m t h v =
    advance-Safe pc m _ (i_op-Safe _ ins m (bit_xor-lt 32) (ap is_i t) v)
exec-Safe op_sub pc ins m t h v =
    advance-Safe pc m _ (r_op-Safe _ ins m (λ a b ha hb. omega arith) t v)
exec-Safe op_subi pc ins m t h v =
    advance-Safe pc m _ (i_op-Safe _ ins m (λ a b ha hb. omega arith) (ap is_i t) v)
exec-Safe op_mul pc ins m t h v =
    advance-Safe pc m _ (r_op-Safe _ ins m (λ a b ha hb. omega arith) t v)
exec-Safe op_muli pc ins m t h v =
    advance-Safe pc m _ (i_op-Safe _ ins m (λ a b ha hb. omega arith) (ap is_i t) v)
exec-Safe op_divu pc ins m t h v = advance-Safe pc m _ (r_op-Safe _ ins m divu-IsWordOp t v)
exec-Safe op_diviu pc ins m t h v =
    advance-Safe pc m _ (i_op-Safe _ ins m divu-IsWordOp (ap is_i t) v)
exec-Safe op_remu pc ins m t h v = advance-Safe pc m _ (r_op-Safe _ ins m remu-IsWordOp t v)
exec-Safe op_remiu pc ins m t h v =
    advance-Safe pc m _ (i_op-Safe _ ins m remu-IsWordOp (ap is_i t) v)
exec-Safe op_slt pc ins m t h v =
    advance-Safe pc m _ (r_op-Safe _ ins m (λ a b ha hb. flag-IsWord (slt a b)) t v)
exec-Safe op_slti pc ins m t h v =
    advance-Safe pc m _ (i_op-Safe _ ins m (λ a b ha hb. flag-IsWord (slt a b)) (ap is_i t) v)
exec-Safe op_sltu pc ins m t h v =
    advance-Safe pc m _ (r_op-Safe _ ins m (λ a b ha hb. flag-IsWord (ltb a b)) t v)
exec-Safe op_sltiu pc ins m t h v =
    advance-Safe pc m _ (i_op-Safe _ ins m (λ a b ha hb. flag-IsWord (ltb a b)) (ap is_i t) v)
exec-Safe op_lui pc ins m t h v = advance-Safe pc m _ (i_op-Safe _ ins m lui-IsWordOp (ap is_i t) v)
exec-Safe op_load pc ins m t h v = advance-Safe pc m _ (handle_load-Safe ins m (ap is_i t) v)
exec-Safe op_store pc ins m t h v = advance-Safe pc m _ (handle_store-Safe ins m (ap is_i t) v)
exec-Safe op_beq pc ins m t h v = branch-Safe _ pc ins m (ap is_i t) v
exec-Safe op_bne pc ins m t h v = branch-Safe _ pc ins m (ap is_i t) v
exec-Safe op_bgt pc ins m t h v = branch-Safe _ pc ins m (ap is_i t) v
exec-Safe op_bge pc ins m t h v = branch-Safe _ pc ins m (ap is_i t) v
exec-Safe op_blt pc ins m t h v = branch-Safe _ pc ins m (ap is_i t) v
exec-Safe op_ble pc ins m t h v = branch-Safe _ pc ins m (ap is_i t) v
exec-Safe op_jalr pc ins m t h v = jalr-Safe pc ins m h (ap is_i t) v

get_type-of_code :
    (ins : Instr) (o : Opcode) → of_code (get_opcode ins) ≡ some o → get_type ins ≡ type_of o
unfolding get_type get_instr_type
get_type-of_code ins o e = rw (e, get_type, get_instr_type)

pub execute-Safe : (ins : Instr) (m : Machine) → IsValid m → Safe (Advances m) (execute ins m)
unfolding execute
execute-Safe ins m v = elim (Option-cases (of_code (get_opcode ins))) [
  | inl e ↦ rw (e, execute) (λ z. cc)
  | inr (o, e) ↦
      rw (e, execute)
        (Safe-bind (Moves m) (Advances m) (exec o (get_pc m) ins m) _
          (exec-Safe o (get_pc m) ins m (get_type-of_code ins o e) (v.regs reg_pc) v)
          λ r k. set_pc-Safe m r.0 r.1 k.0 k.1)
]

-- One round of the interpreter from a valid machine either stops, and then not at a failed assert,
-- or gives a valid machine with as much memory and a program counter inside it.
pub step-Safe : (m : Machine) → IsValid m → Safe (Advances m) (step m)
unfolding step
step-Safe m v =
    Safe-bind (λ w. w < 2 ^ 32) (Advances m) (read_uint_from_memory (get_pc m) m) _
      (read_uint-Safe (get_pc m) m v) λ w h. execute-Safe (record { encoding = w }) m v

-- What holds of the machine in which a run ends.
abbrev pub Ends : ℕ → ℕ → RunResult → Type 0
Ends size end (halted m) = IsValid m × (m.mem_size ≡ size) × (get_pc m ≡ end)
Ends size end (stopped m e) = IsValid m × (m.mem_size ≡ size) × (e ≢ assert_failed)
Ends size end (out_of_fuel m) = IsValid m × (m.mem_size ≡ size)

-- However long the interpreter runs, the machine stays valid and its memory keeps its size; it
-- halts only at the end of the binary, and no assert fails.
pub run_loop-Ends :
    (fuel size end : ℕ) (m : Machine)
    → IsValid m
    → m.mem_size ≡ size
    → Ends size end (run_loop fuel end m)
unfolding run_loop
run_loop-Ends zero size end m v s = (v, s)
run_loop-Ends (suc fuel) size end m v s = elim (Bool-cases (get_pc m == end)) [
  | inl e ↦ rw (e, run_loop) (v, s, ground arith)
  | inr e ↦
      rw (e, run_loop)
        (go (step m) (step-Safe m v) λ m' k. run_loop-Ends fuel size end m' k.0 (k.1 ∙ s))
]
  where
    go :
        (r : Outcome Machine)
        → Safe (Advances m) r
        → ((m' : Machine) → Keeps m m' → Ends size end (run_loop fuel end m'))
        → Ends size end (elim r [ ok m' ↦ run_loop fuel end m' | stop e ↦ stopped m e ])
    go (ok m') k rec = rec m' k.0
    go (stop e) k rec = (v, s, k)
