-- ===== src/Sim/Isa.antt =====
-- What an instruction may change, over all thirty opcodes.
pub mod Steps
use llvm_mipt.Base.{
  ℕ, ◌≡◌, ◌≢◌, refl, ◌∙◌, ap, Bool, true, false, some, ◌==◌, leb, arith, Bool-cases, Option-cases,
  inl, inr, ◌⊎◌,
}
use llvm_mipt.Base.Word.{add32}
use llvm_mipt.Instr.Opcodes.{
  Opcode, op_add, op_and, op_or, op_xor, op_sub, op_mul, op_divu, op_remu, op_slt, op_sltu, op_addi,
  op_andi, op_ori, op_xori, op_subi, op_muli, op_diviu, op_remiu, op_slti, op_sltiu, op_lui, op_beq,
  op_bne, op_bgt, op_bge, op_blt, op_ble, op_load, op_store, op_jalr, of_code,
}
use llvm_mipt.Instr.{Instr, r1, r2, r3, imm, get_opcode, reg_pc}
use llvm_mipt.Sim.State.{
  Machine, Outcome, ok, stop, ◌>>=◌, or_assert, write_reg, get_pc, read_uint_from_memory,
  write_uint_to_memory,
}
use llvm_mipt.Sim.Device.{handle_load, handle_store, load_value, store_value, getchar, sim_rand}
use llvm_mipt.Sim.Exec.{exec, r_op, i_op, branch, jalr, advance}
use llvm_mipt.Sim.Run.{execute, set_pc}
use Steps.{
  Ensures, Ensures-bind, Frame, QuietMove, advance-Ensures, branch-Ensures, jalr-Ensures, LoadFrame,
  handle_load-Ensures, handle_store-Ensures, r_op-Ensures, i_op-Ensures, SameInput,
}

abbrev OpFrame : Opcode → ℕ → Machine → Machine → Type 0
OpFrame o d = Frame d (o ≡ op_store) (o ≡ op_load)

quiet_frame :
    (o : Opcode) (d : ℕ) (m : Machine) (r : Outcome (Machine × ℕ))
    → Ensures (QuietMove d m) r
    → Ensures (λ r. OpFrame o d m r.0) r
quiet_frame o d m (ok r) q = record { regs = q.0; store = inr q.1; input = inr q.2 }
quiet_frame o d m (stop e) q = tt

exec-Frame :
    (o : Opcode) (pc : ℕ) (ins : Instr) (m : Machine)
    → Ensures (λ r. OpFrame o (r1 ins) m r.0) (exec o pc ins m)
unfolding exec
exec-Frame op_add pc ins m =
    quiet_frame op_add (r1 ins) m _ (advance-Ensures (r1 ins) pc m _ (r_op-Ensures _ ins m))
exec-Frame op_and pc ins m =
    quiet_frame op_and (r1 ins) m _ (advance-Ensures (r1 ins) pc m _ (r_op-Ensures _ ins m))
exec-Frame op_or pc ins m =
    quiet_frame op_or (r1 ins) m _ (advance-Ensures (r1 ins) pc m _ (r_op-Ensures _ ins m))
exec-Frame op_xor pc ins m =
    quiet_frame op_xor (r1 ins) m _ (advance-Ensures (r1 ins) pc m _ (r_op-Ensures _ ins m))
exec-Frame op_sub pc ins m =
    quiet_frame op_sub (r1 ins) m _ (advance-Ensures (r1 ins) pc m _ (r_op-Ensures _ ins m))
exec-Frame op_mul pc ins m =
    quiet_frame op_mul (r1 ins) m _ (advance-Ensures (r1 ins) pc m _ (r_op-Ensures _ ins m))
exec-Frame op_divu pc ins m =
    quiet_frame op_divu (r1 ins) m _ (advance-Ensures (r1 ins) pc m _ (r_op-Ensures _ ins m))
exec-Frame op_remu pc ins m =
    quiet_frame op_remu (r1 ins) m _ (advance-Ensures (r1 ins) pc m _ (r_op-Ensures _ ins m))
exec-Frame op_slt pc ins m =
    quiet_frame op_slt (r1 ins) m _ (advance-Ensures (r1 ins) pc m _ (r_op-Ensures _ ins m))
exec-Frame op_sltu pc ins m =
    quiet_frame op_sltu (r1 ins) m _ (advance-Ensures (r1 ins) pc m _ (r_op-Ensures _ ins m))
exec-Frame op_addi pc ins m =
    quiet_frame op_addi (r1 ins) m _ (advance-Ensures (r1 ins) pc m _ (i_op-Ensures _ ins m))
exec-Frame op_andi pc ins m =
    quiet_frame op_andi (r1 ins) m _ (advance-Ensures (r1 ins) pc m _ (i_op-Ensures _ ins m))
exec-Frame op_ori pc ins m =
    quiet_frame op_ori (r1 ins) m _ (advance-Ensures (r1 ins) pc m _ (i_op-Ensures _ ins m))
exec-Frame op_xori pc ins m =
    quiet_frame op_xori (r1 ins) m _ (advance-Ensures (r1 ins) pc m _ (i_op-Ensures _ ins m))
exec-Frame op_subi pc ins m =
    quiet_frame op_subi (r1 ins) m _ (advance-Ensures (r1 ins) pc m _ (i_op-Ensures _ ins m))
exec-Frame op_muli pc ins m =
    quiet_frame op_muli (r1 ins) m _ (advance-Ensures (r1 ins) pc m _ (i_op-Ensures _ ins m))
exec-Frame op_diviu pc ins m =
    quiet_frame op_diviu (r1 ins) m _ (advance-Ensures (r1 ins) pc m _ (i_op-Ensures _ ins m))
exec-Frame op_remiu pc ins m =
    quiet_frame op_remiu (r1 ins) m _ (advance-Ensures (r1 ins) pc m _ (i_op-Ensures _ ins m))
exec-Frame op_slti pc ins m =
    quiet_frame op_slti (r1 ins) m _ (advance-Ensures (r1 ins) pc m _ (i_op-Ensures _ ins m))
exec-Frame op_sltiu pc ins m =
    quiet_frame op_sltiu (r1 ins) m _ (advance-Ensures (r1 ins) pc m _ (i_op-Ensures _ ins m))
exec-Frame op_lui pc ins m =
    quiet_frame op_lui (r1 ins) m _ (advance-Ensures (r1 ins) pc m _ (i_op-Ensures _ ins m))
exec-Frame op_beq pc ins m = quiet_frame op_beq (r1 ins) m _ (branch-Ensures _ (r1 ins) pc ins m)
exec-Frame op_bne pc ins m = quiet_frame op_bne (r1 ins) m _ (branch-Ensures _ (r1 ins) pc ins m)
exec-Frame op_bgt pc ins m = quiet_frame op_bgt (r1 ins) m _ (branch-Ensures _ (r1 ins) pc ins m)
exec-Frame op_bge pc ins m = quiet_frame op_bge (r1 ins) m _ (branch-Ensures _ (r1 ins) pc ins m)
exec-Frame op_blt pc ins m = quiet_frame op_blt (r1 ins) m _ (branch-Ensures _ (r1 ins) pc ins m)
exec-Frame op_ble pc ins m = quiet_frame op_ble (r1 ins) m _ (branch-Ensures _ (r1 ins) pc ins m)
exec-Frame op_jalr pc ins m = quiet_frame op_jalr (r1 ins) m _ (jalr-Ensures pc ins m)
exec-Frame op_load pc ins m = go (handle_load ins m) (handle_load-Ensures ins m)
  where
    go :
        (r : Outcome Machine)
        → Ensures (LoadFrame (r1 ins) m) r
        → Ensures (λ r. OpFrame op_load (r1 ins) m r.0) (advance pc r)
    go (ok m') h = record { regs = h.0; store = inr h.1; input = inl refl }
    go (stop e) h = tt
exec-Frame op_store pc ins m = go (handle_store ins m) (handle_store-Ensures ins m)
  where
    go :
        (r : Outcome Machine)
        → Ensures (λ m'. (m'.reg ≡ m.reg) × SameInput m m') r
        → Ensures (λ r. OpFrame op_store (r1 ins) m r.0) (advance pc r)
    go (ok m') h = record { regs = λ k _ _. ap (λ f. f k) h.0; store = inl refl; input = inr h.1 }
    go (stop e) h = tt

set_pc-Frame :
    (o : Opcode) (d : ℕ) (m m' : Machine) (next_pc : ℕ)
    → OpFrame o d m m'
    → Ensures (OpFrame o d m) (set_pc m' next_pc)
unfolding set_pc
set_pc-Frame o d m m' next_pc f = elim (Bool-cases (leb m'.mem_size next_pc)) [
  | inl e ↦ rw (e, set_pc) tt
  | inr e ↦
      rw (e, set_pc)
        (record {
          regs = λ k a b. ground (arith, f.regs k a b, b);
          store = elim f.store [
            | inl s ↦ inl s
            | inr s ↦ inr (record {
              same_byte = s.same_byte;
              same_color = s.same_color;
              same_shape = s.same_shape;
              same_events = s.same_events;
            })
          ];
          input = elim f.input [
            | inl s ↦ inl s
            | inr s ↦ inr (record { same_input = s.same_input; same_seed = s.same_seed })
          ];
        })
]

-- An instruction that completes changes no register but its first operand and the program counter;
-- memory, display registers and output only if it is `store`; input and random numbers only if it
-- is `load`. This holds of all thirty opcodes.
pub execute-Frame :
    (ins : Instr) (m m' : Machine)
    → execute ins m ≡ ok m'
    → (o : Opcode) × (of_code (get_opcode ins) ≡ some o)
      × Frame (r1 ins) (o ≡ op_store) (o ≡ op_load) m m'
unfolding execute
execute-Frame ins m m' h = elim (Option-cases (of_code (get_opcode ins))) [
  | inl e ↦ let z : stop _ ≡ ok m' = rw (e, execute) at h in cc
  | inr (o, e) ↦
      let done : Ensures (OpFrame o (r1 ins) m) (execute ins m) =
        rw (e, execute)
          (Ensures-bind (λ r. OpFrame o (r1 ins) m r.0) (OpFrame o (r1 ins) m)
            (exec o (get_pc m) ins m) _ (exec-Frame o (get_pc m) ins m)
            λ r f. set_pc-Frame o (r1 ins) m r.0 r.1 f) in
      (o, e, rw h at done)
]
