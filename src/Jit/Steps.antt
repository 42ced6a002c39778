-- ===== src/Jit/Steps.antt =====
-- `simulate` of asm/src/qrisc-llvm-sim.cpp on a program without branches, beside the interpreter.
use llvm_mipt.Base.{
  ℕ, ◌≡◌, refl, sym, ap, subst, fun_ext, arith, Bool, true, false, ◌==◌, leb, none, some, List, [],
  ◌∷◌, if◌then◌else◌, Bool-cases, inl, inr, ==_iff,
}
use llvm_mipt.Base.Word.{add32}
use llvm_mipt.Instr.Opcodes.{
  Opcode, op_add, op_and, op_or, op_xor, op_sub, op_mul, op_divu, op_remu, op_slt, op_sltu, op_addi,
  op_andi, op_ori, op_xori, op_subi, op_muli, op_diviu, op_remiu, op_slti, op_sltiu, op_lui, op_beq,
  op_bne, op_bgt, op_bge, op_blt, op_ble, op_load, op_store, op_jalr, code, of_code,
}
use llvm_mipt.Instr.{Instr, reg_zero, reg_pc, r2, is_i, get_opcode, is_jump, is_branch}
use llvm_mipt.Sim.State.{Machine, Outcome, ok, stop, ◌>>=◌, update, get_pc}
use llvm_mipt.Sim.Exec.{exec, advance}
use llvm_mipt.Sim.Run.{execute, set_pc}
use llvm_mipt.Sim.Invariant.Parts.{IsValid}
use llvm_mipt.Jit.Builder.{
  Builder, add_bin, and_bin, or_bin, xor_bin, sub_bin, mul_bin, udiv_bin, urem_bin, Emission, made,
}
use llvm_mipt.Jit.Builder.{◌>>=◌ as ◌then◌}
use llvm_mipt.Jit.Emit.{emit_instr, no_cond}
use llvm_mipt.Jit.Compile.{Blocks, flow}
use llvm_mipt.Instr.Kinds.{type-of_code, is_jump-code, is_branch-code}
use llvm_mipt.Jit.Semantics.{Semantics}
use llvm_mipt.Jit.AtPc.{at_pc}
use llvm_mipt.Jit.Straight.{
  Tracks, emit_r-Tracks, emit_i-Tracks, emit_lui-Tracks, emit_load-Tracks, emit_store-Tracks,
}

-- What is compiled here as it is interpreted: arithmetic, loads and stores, and `lui` on the zero
-- register.
abbrev pub straight_op : Opcode → Instr → Bool
straight_op op_slt ins = false
straight_op op_sltu ins = false
straight_op op_slti ins = false
straight_op op_sltiu ins = false
straight_op op_beq ins = false
straight_op op_bne ins = false
straight_op op_bgt ins = false
straight_op op_bge ins = false
straight_op op_blt ins = false
straight_op op_ble ins = false
straight_op op_jalr ins = false
straight_op op_lui ins = r2 ins == reg_zero
straight_op _ ins = true

unfoldable pub is_straight : Instr → Bool
is_straight ins = elim (of_code (get_opcode ins)) [ none ↦ false | some o ↦ straight_op o ins ]

-- The instructions one after another, as the loop of the interpreter takes them.
unfoldable pub execute_all : List Instr → Machine → Outcome Machine
execute_all [] m = ok m
execute_all (ins ∷ instrs) m = execute ins m >>= λ r. execute_all instrs r

pub no_flow :
    (o : Opcode) (ins : Instr)
    → straight_op o ins ≡ true
    → of_code (get_opcode ins) ≡ some o
    → (is_branch ins ≡ false) × (is_jump ins ≡ false)
unfolding code
no_flow op_add ins t h = (is_branch-code ins op_add h, is_jump-code ins op_add h)
no_flow op_and ins t h = (is_branch-code ins op_and h, is_jump-code ins op_and h)
no_flow op_or ins t h = (is_branch-code ins op_or h, is_jump-code ins op_or h)
no_flow op_xor ins t h = (is_branch-code ins op_xor h, is_jump-code ins op_xor h)
no_flow op_sub ins t h = (is_branch-code ins op_sub h, is_jump-code ins op_sub h)
no_flow op_mul ins t h = (is_branch-code ins op_mul h, is_jump-code ins op_mul h)
no_flow op_divu ins t h = (is_branch-code ins op_divu h, is_jump-code ins op_divu h)
no_flow op_remu ins t h = (is_branch-code ins op_remu h, is_jump-code ins op_remu h)
no_flow op_addi ins t h = (is_branch-code ins op_addi h, is_jump-code ins op_addi h)
no_flow op_andi ins t h = (is_branch-code ins op_andi h, is_jump-code ins op_andi h)
no_flow op_ori ins t h = (is_branch-code ins op_ori h, is_jump-code ins op_ori h)
no_flow op_xori ins t h = (is_branch-code ins op_xori h, is_jump-code ins op_xori h)
no_flow op_subi ins t h = (is_branch-code ins op_subi h, is_jump-code ins op_subi h)
no_flow op_muli ins t h = (is_branch-code ins op_muli h, is_jump-code ins op_muli h)
no_flow op_diviu ins t h = (is_branch-code ins op_diviu h, is_jump-code ins op_diviu h)
no_flow op_remiu ins t h = (is_branch-code ins op_remiu h, is_jump-code ins op_remiu h)
no_flow op_lui ins t h = (is_branch-code ins op_lui h, is_jump-code ins op_lui h)
no_flow op_load ins t h = (is_branch-code ins op_load h, is_jump-code ins op_load h)
no_flow op_store ins t h = (is_branch-code ins op_store h, is_jump-code ins op_store h)
no_flow op_slt ins t h = cc
no_flow op_sltu ins t h = cc
no_flow op_slti ins t h = cc
no_flow op_sltiu ins t h = cc
no_flow op_beq ins t h = cc
no_flow op_bne ins t h = cc
no_flow op_bgt ins t h = cc
no_flow op_bge ins t h = cc
no_flow op_blt ins t h = cc
no_flow op_ble ins t h = cc
no_flow op_jalr ins t h = cc

update_twice : (f : ℕ → ℕ) (n z : ℕ) → update (update f reg_pc n) reg_pc z ≡ update f reg_pc z
update_twice f n z = fun_ext λ k. ground arith

module _ (b : Builder) (s : Semantics b) (z : ℕ) (m0 : Machine) where
  open b use {Code, Value, Block}

  -- The code after the instruction, the state it comes to, and that the interpreter goes on to the
  -- next instruction.
  abbrev pub Follows : ℕ → Emission Code → Outcome Machine → Type 0
  Follows pc e (ok m) = Tracks b s z m0 e (ok m) × (get_pc m ≡ add32 pc 4)
  Follows pc e (stop r) = Unit

  flow-straight :
      (ins : Instr) (pc : ℕ) (bl : Blocks b) (c : Code)
      → is_jump ins ≡ false
      → bl (add32 pc 4) ≡ none
      → flow b none ins pc bl c ≡ made c
  unfolding flow
  flow-straight ins pc bl c j n = rw (j, n) refl

  finish :
      (ins : Instr) (pc : ℕ) (bl : Blocks b) (e : Emission Code) (r : Outcome Machine)
      → is_jump ins ≡ false
      → bl (add32 pc 4) ≡ none
      → Tracks b s z m0 e r
      → Follows pc
          (no_cond b e then λ x. flow b x.0 ins pc bl x.1)
          (advance pc r >>= λ q. set_pc q.0 q.1)
  unfolding set_pc
  finish ins pc bl e (stop r) j n t = tt
  finish ins pc bl e (ok m) j n (c, f, h) = elim (Bool-cases (leb m.mem_size (add32 pc 4))) [
    | inl g ↦ rw (g, set_pc) tt
    | inr g ↦
        rw (g, set_pc)
          (
            (
              c,
              rw (f, flow-straight ins pc bl c j n) refl,
              subst (λ k. s.Runs c m0 (record m { reg = k }))
                  (sym (update_twice m.reg (add32 pc 4) z)) h,
            ),
            refl,
          )
  ]

  module _ (m : Machine) (v : IsValid m) (c : Code) (h : s.Runs c m0 (at_pc z m))
      (ins : Instr) where
    pub exec-Tracks :
        (o : Opcode) (bl : Blocks b)
        → of_code (get_opcode ins) ≡ some o
        → straight_op o ins ≡ true
        → bl (add32 (get_pc m) 4) ≡ none
        → Follows
            (get_pc m)
            (emit_instr b (some o) ins (get_pc m) c then λ x. flow b x.0 ins (get_pc m) bl x.1)
            (exec o (get_pc m) ins m >>= λ q. set_pc q.0 q.1)
    unfolding emit_instr exec
    exec-Tracks op_add bl e t n =
        finish ins (get_pc m) bl _ _ (no_flow op_add ins t e).1 n
          (emit_r-Tracks b s z m0 m v c h ins add_bin (type-of_code ins op_add e))
    exec-Tracks op_and bl e t n =
        finish ins (get_pc m) bl _ _ (no_flow op_and ins t e).1 n
          (emit_r-Tracks b s z m0 m v c h ins and_bin (type-of_code ins op_and e))
    exec-Tracks op_or bl e t n =
        finish ins (get_pc m) bl _ _ (no_flow op_or ins t e).1 n
          (emit_r-Tracks b s z m0 m v c h ins or_bin (type-of_code ins op_or e))
    exec-Tracks op_xor bl e t n =
        finish ins (get_pc m) bl _ _ (no_flow op_xor ins t e).1 n
          (emit_r-Tracks b s z m0 m v c h ins xor_bin (type-of_code ins op_xor e))
    exec-Tracks op_sub bl e t n =
        finish ins (get_pc m) bl _ _ (no_flow op_sub ins t e).1 n
          (emit_r-Tracks b s z m0 m v c h ins sub_bin (type-of_code ins op_sub e))
    exec-Tracks op_mul bl e t n =
        finish ins (get_pc m) bl _ _ (no_flow op_mul ins t e).1 n
          (emit_r-Tracks b s z m0 m v c h ins mul_bin (type-of_code ins op_mul e))
    exec-Tracks op_divu bl e t n =
        finish ins (get_pc m) bl _ _ (no_flow op_divu ins t e).1 n
          (emit_r-Tracks b s z m0 m v c h ins udiv_bin (type-of_code ins op_divu e))
    exec-Tracks op_remu bl e t n =
        finish ins (get_pc m) bl _ _ (no_flow op_remu ins t e).1 n
          (emit_r-Tracks b s z m0 m v c h ins urem_bin (type-of_code ins op_remu e))
    exec-Tracks op_addi bl e t n =
        finish ins (get_pc m) bl _ _ (no_flow op_addi ins t e).1 n
          (emit_i-Tracks b s z m0 m v c h ins (ap is_i (type-of_code ins op_addi e)) add_bin)
    exec-Tracks op_andi bl e t n =
        finish ins (get_pc m) bl _ _ (no_flow op_andi ins t e).1 n
          (emit_i-Tracks b s z m0 m v c h ins (ap is_i (type-of_code ins op_andi e)) and_bin)
    exec-Tracks op_ori bl e t n =
        finish ins (get_pc m) bl _ _ (no_flow op_ori ins t e).1 n
          (emit_i-Tracks b s z m0 m v c h ins (ap is_i (type-of_code ins op_ori e)) or_bin)
    exec-Tracks op_xori bl e t n =
        finish ins (get_pc m) bl _ _ (no_flow op_xori ins t e).1 n
          (emit_i-Tracks b s z m0 m v c h ins (ap is_i (type-of_code ins op_xori e)) xor_bin)
    exec-Tracks op_subi bl e t n =
        finish ins (get_pc m) bl _ _ (no_flow op_subi ins t e).1 n
          (emit_i-Tracks b s z m0 m v c h ins (ap is_i (type-of_code ins op_subi e)) sub_bin)
    exec-Tracks op_muli bl e t n =
        finish ins (get_pc m) bl _ _ (no_flow op_muli ins t e).1 n
          (emit_i-Tracks b s z m0 m v c h ins (ap is_i (type-of_code ins op_muli e)) mul_bin)
    exec-Tracks op_diviu bl e t n =
        finish ins (get_pc m) bl _ _ (no_flow op_diviu ins t e).1 n
          (emit_i-Tracks b s z m0 m v c h ins (ap is_i (type-of_code ins op_diviu e)) udiv_bin)
    exec-Tracks op_remiu bl e t n =
        finish ins (get_pc m) bl _ _ (no_flow op_remiu ins t e).1 n
          (emit_i-Tracks b s z m0 m v c h ins (ap is_i (type-of_code ins op_remiu e)) urem_bin)
    exec-Tracks op_load bl e t n =
        finish ins (get_pc m) bl _ _ (no_flow op_load ins t e).1 n
          (emit_load-Tracks b s z m0 m v c h ins (ap is_i (type-of_code ins op_load e)))
    exec-Tracks op_store bl e t n =
        finish ins (get_pc m) bl _ _ (no_flow op_store ins t e).1 n
          (emit_store-Tracks b s z m0 m v c h ins (ap is_i (type-of_code ins op_store e)))
    exec-Tracks op_lui bl e t n = finish ins (get_pc m) bl _ _ (no_flow op_lui ins t e).1 n (
        emit_lui-Tracks b s z m0 m v c h ins (ap is_i (type-of_code ins op_lui e))
          ((==_iff _ _).0 t))
    exec-Tracks op_slt bl e t n = cc
    exec-Tracks op_sltu bl e t n = cc
    exec-Tracks op_slti bl e t n = cc
    exec-Tracks op_sltiu bl e t n = cc
    exec-Tracks op_beq bl e t n = cc
    exec-Tracks op_bne bl e t n = cc
    exec-Tracks op_bgt bl e t n = cc
    exec-Tracks op_bge bl e t n = cc
    exec-Tracks op_blt bl e t n = cc
    exec-Tracks op_ble bl e t n = cc
    exec-Tracks op_jalr bl e t n = cc
