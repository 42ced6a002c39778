-- ===== src/Sim/Invariant/Steps.antt =====
-- The invariant under the pieces of an instruction.
use llvm_mipt.Base.{ℕ, ◌/◌, ◌%◌, ◌^◌, ◌<◌, ◌≡◌, refl, Bool, true, leb, arith, Bool-cases, inl, inr}
use llvm_mipt.Instr.Opcodes.{r_type}
use llvm_mipt.Instr.{Instr, r1, r2, imm, is_i, get_type}
use llvm_mipt.Instr.Decode.{r1-lt, r3_field}
use llvm_mipt.Sim.State.{Machine, Outcome, or_assert, get_pc, write_reg}
use llvm_mipt.Sim.Exec.{r_op, i_op, branch, jalr, jump_target, advance}
use llvm_mipt.Sim.Run.{set_pc}
use llvm_mipt.Sim.Invariant.Parts.{IsValid, Safe, Safe-bind, Keeps, Moves, IsWord, write_reg-Safe}
use llvm_mipt.Sim.Invariant.Devices.{imm-Safe, if-Safe}

-- An operation on words gives a word, or stops as the source does.
abbrev pub IsWordOp : (ℕ → ℕ → Outcome ℕ) → Type 0
IsWordOp f = (a b : ℕ) → IsWord a → IsWord b → Safe IsWord (f a b)

pub r_op-Safe :
    (f : ℕ → ℕ → Outcome ℕ) (ins : Instr) (m : Machine)
    → IsWordOp f
    → get_type ins ≡ r_type
    → IsValid m
    → Safe (Keeps m) (r_op f ins m)
unfolding r_op
r_op-Safe f ins m word t v = rw (r3_field ins t) (
    Safe-bind IsWord (Keeps m) (f (m.reg (r2 ins)) (m.reg (ins.encoding / 2 ^ 11 % 32))) _
      (word _ _ (v.regs _) (v.regs _)) λ w h. write_reg-Safe (r1 ins) w m m (r1-lt ins) h (v, refl))

pub i_op-Safe :
    (f : ℕ → ℕ → Outcome ℕ) (ins : Instr) (m : Machine)
    → IsWordOp f
    → is_i (get_type ins) ≡ true
    → IsValid m
    → Safe (Keeps m) (i_op f ins m)
unfolding i_op
i_op-Safe f ins m word t v =
    Safe-bind IsWord (Keeps m) (or_assert (imm ins)) _ (imm-Safe ins t) λ i h.
      Safe-bind IsWord (Keeps m) (f (m.reg (r2 ins)) i) _ (word _ i (v.regs _) h)
        λ w k. write_reg-Safe (r1 ins) w m m (r1-lt ins) k (v, refl)

pub advance-Safe :
    (pc : ℕ) (m : Machine) (r : Outcome Machine) → Safe (Keeps m) r → Safe (Moves m) (advance pc r)
advance-Safe pc m r h = Safe-bind (Keeps m) (Moves m) r _ h λ m' k. (k, omega arith)

jump_target-IsWord : (base i : ℕ) → IsWord (jump_target base i)
unfolding jump_target
jump_target-IsWord base i = omega arith

pub branch-Safe :
    (cond : Bool) (pc : ℕ) (ins : Instr) (m : Machine)
    → is_i (get_type ins) ≡ true
    → IsValid m
    → Safe (Moves m) (branch cond pc ins m)
unfolding branch
branch-Safe cond pc ins m t v =
    if-Safe (Moves m) cond _ _
      (λ _.
        Safe-bind IsWord (Moves m) (or_assert (imm ins)) _ (imm-Safe ins t)
          λ i h. ((v, refl), jump_target-IsWord pc i))
      λ _. ((v, refl), omega arith)

pub jalr-Safe :
    (pc : ℕ) (ins : Instr) (m : Machine)
    → IsWord pc
    → is_i (get_type ins) ≡ true
    → IsValid m
    → Safe (Moves m) (jalr pc ins m)
unfolding jalr
jalr-Safe pc ins m h t v =
    Safe-bind IsWord (Moves m) (or_assert (imm ins)) _ (imm-Safe ins t) λ i _.
      Safe-bind (Keeps m) (Moves m) (write_reg (r1 ins) pc m) _
        (write_reg-Safe (r1 ins) pc m m (r1-lt ins) h (v, refl)) λ m' k. (k, jump_target-IsWord _ i)

-- A machine whose program counter was written lies in the memory with it.
abbrev pub Advances : Machine → Machine → Type 0
Advances m m' = Keeps m m' × (get_pc m' < m'.mem_size)

pub set_pc-Safe :
    (m m' : Machine) (next_pc : ℕ)
    → Keeps m m'
    → IsWord next_pc
    → Safe (Advances m) (set_pc m' next_pc)
unfolding set_pc
set_pc-Safe m m' next_pc k h = elim (Bool-cases (leb m'.mem_size next_pc)) [
  | inl e ↦ rw (e, set_pc) (λ z. cc)
  | inr e ↦
      rw (e, set_pc)
        (
          (
            record {
              regs = λ j. ground (arith, k.0.regs j);
              zero = k.0.zero;
              bytes = k.0.bytes;
              color = k.0.color;
              shape = k.0.shape;
              seed = k.0.seed;
              size = k.0.size;
            },
            k.1,
          ),
          ground arith,
        )
]
