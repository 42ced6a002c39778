-- ===== src/Jit/Support.antt =====
-- Which programs `simulate` of asm/src/qrisc-llvm-sim.cpp compiles.
use llvm_mipt.Base.{ℕ, ◌<◌, ◌%◌, ◌/◌, ◌^◌, ◌≡◌, refl, arith, Bool, true, false, some, lt→ltb}
use llvm_mipt.Instr.Opcodes.{InstrType, invalid, r_type, si_type, ui_type}
use llvm_mipt.Instr.{Instr, r1, r2, imm, get_type, extend_imm, is_i}
use llvm_mipt.Instr.Decode.{r1-lt, r2-lt, r3_field, imm_field}
use llvm_mipt.Jit.Builder.{Builder, BinaryOp, Predicate, Emission, made, refused, ◌>>=◌}
use llvm_mipt.Jit.Emit.{
  read_reg, write_reg, emit_r, emit_i, emit_icmp, emit_slt, emit_slti, emit_lui, emit_addr,
  emit_load, emit_store,
}

abbrev pub is_made {ℓ} : {A : Type ℓ} → Emission A → Bool
is_made (made a) = true
is_made (refused e) = false

pub bind-made {ℓ κ} :
    {A : Type ℓ} {B : Type κ} (e : Emission A) (f : A → Emission B)
    → is_made e ≡ true
    → ((a : A) → is_made (f a) ≡ true)
    → is_made (e >>= f) ≡ true
bind-made (made a) f h k = k a
bind-made (refused e) f h k = cc

pub imm-some : (ins : Instr) → is_i (get_type ins) ≡ true → (i : ℕ) × (imm ins ≡ some i)
imm-some ins h = of_type (get_type ins) h (imm_field ins)
  where
    of_type :
        (t : InstrType)
        → is_i t ≡ true
        → imm ins ≡ extend_imm t (ins.encoding % 2 ^ 16)
        → (i : ℕ) × (imm ins ≡ some i)
    of_type si_type h e = (_, e)
    of_type ui_type h e = (_, e)
    of_type r_type h e = cc
    of_type invalid h e = cc

module _ (b : Builder) where
  open b use {Code, Value, Block}

  pub read_reg-made : (idx pc : ℕ) (c : Code) → idx < 32 → is_made (read_reg b idx pc c) ≡ true
  unfolding read_reg
  read_reg-made idx pc c h = rw (lt→ltb idx 32 h) refl

  write_reg-made :
      (idx : ℕ) (v : Value) (c : Code) → idx < 32 → is_made (write_reg b idx v c) ≡ true
  unfolding write_reg
  write_reg-made idx v c h = rw (lt→ltb idx 32 h) refl

  pub emit_r-made :
      (op : BinaryOp) (ins : Instr) (pc : ℕ) (c : Code)
      → get_type ins ≡ r_type
      → is_made (emit_r b op ins pc c) ≡ true
  unfolding emit_r
  emit_r-made op ins pc c h =
      bind-made (read_reg b (r2 ins) pc c) _ (read_reg-made (r2 ins) pc c (r2-lt ins)) λ x.
        rw (r3_field ins h) (
          bind-made (read_reg b (ins.encoding / 2 ^ 11 % 32) pc x.1) _
            (read_reg-made _ pc x.1 (omega arith)) λ y. write_reg-made (r1 ins) _ _ (r1-lt ins))

  module _ (ins : Instr) (h : is_i (get_type ins) ≡ true) where
    pub emit_i-made : (op : BinaryOp) (pc : ℕ) (c : Code) → is_made (emit_i b op ins pc c) ≡ true
    unfolding emit_i
    emit_i-made op pc c =
        bind-made (read_reg b (r2 ins) pc c) _ (read_reg-made (r2 ins) pc c (r2-lt ins))
          λ x. let (i, e) = imm-some ins h in rw e (write_reg-made (r1 ins) _ _ (r1-lt ins))

    pub emit_slti-made :
        (p : Predicate) (pc : ℕ) (c : Code) → is_made (emit_slti b p ins pc c) ≡ true
    unfolding emit_slti
    emit_slti-made p pc c =
        bind-made (read_reg b (r1 ins) pc c) _ (read_reg-made (r1 ins) pc c (r1-lt ins))
          λ x. let (i, e) = imm-some ins h in rw e (write_reg-made (r1 ins) _ _ (r1-lt ins))

    pub emit_lui-made : (pc : ℕ) (c : Code) → is_made (emit_lui b ins pc c) ≡ true
    unfolding emit_lui
    emit_lui-made pc c =
        let (i, e) = imm-some ins h in
        rw e (
          bind-made (read_reg b (r2 ins) pc _) _ (read_reg-made (r2 ins) pc _ (r2-lt ins))
            λ x. write_reg-made (r1 ins) _ _ (r1-lt ins))

    pub emit_addr-made : (pc : ℕ) (c : Code) → is_made (emit_addr b ins pc c) ≡ true
    unfolding emit_addr
    emit_addr-made pc c =
        bind-made (read_reg b (r2 ins) pc c) _ (read_reg-made (r2 ins) pc c (r2-lt ins))
          λ x. let (i, e) = imm-some ins h in rw e refl

    pub emit_load-made : (pc : ℕ) (c : Code) → is_made (emit_load b ins pc c) ≡ true
    unfolding emit_load
    emit_load-made pc c =
        bind-made (emit_addr b ins pc c) _ (emit_addr-made pc c)
          λ a. write_reg-made (r1 ins) _ _ (r1-lt ins)

    pub emit_store-made : (pc : ℕ) (c : Code) → is_made (emit_store b ins pc c) ≡ true
    unfolding emit_store
    emit_store-made pc c = bind-made (emit_addr b ins pc c) _ (emit_addr-made pc c) λ a.
        bind-made (read_reg b (r1 ins) pc a.1) _ (read_reg-made (r1 ins) pc a.1 (r1-lt ins))
          λ x. refl

  pub emit_icmp-made :
      (p : Predicate) (ins : Instr) (pc : ℕ) (c : Code) → is_made (emit_icmp b p ins pc c) ≡ true
  unfolding emit_icmp
  emit_icmp-made p ins pc c =
      bind-made (read_reg b (r1 ins) pc c) _ (read_reg-made (r1 ins) pc c (r1-lt ins)) λ x.
        bind-made (read_reg b (r2 ins) pc x.1) _ (read_reg-made (r2 ins) pc x.1 (r2-lt ins))
          λ y. refl

  pub emit_slt-made :
      (p : Predicate) (ins : Instr) (pc : ℕ) (c : Code) → is_made (emit_slt b p ins pc c) ≡ true
  unfolding emit_slt
  emit_slt-made p ins pc c =
      bind-made (emit_icmp b p ins pc c) _ (emit_icmp-made p ins pc c)
        λ x. write_reg-made (r1 ins) _ _ (r1-lt ins)
