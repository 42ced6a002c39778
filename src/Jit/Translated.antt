-- ===== src/Jit/Translated.antt =====
-- One instruction in the second pass of `simulate` (asm/src/qrisc-llvm-sim.cpp): whether its code is
-- made, once the blocks are there.
use llvm_mipt.Base.{
  ℕ, ◌≡◌, refl, sym, ap, ◌∙◌, arith, Bool, true, false, not, ◌||◌, Option, none, some, ◌==◌,
}
use llvm_mipt.Base.Word.{add32}
use llvm_mipt.Instr.Opcodes.{
  invalid, Opcode, op_add, op_and, op_or, op_xor, op_sub, op_mul, op_divu, op_remu, op_slt, op_sltu,
  op_addi, op_andi, op_ori, op_xori, op_subi, op_muli, op_diviu, op_remiu, op_slti, op_sltiu,
  op_lui, op_beq, op_bne, op_bgt, op_bge, op_blt, op_ble, op_load, op_store, op_jalr, code, of_code,
  code-of_code, get_instr_type,
}
use llvm_mipt.Instr.{Instr, get_opcode, get_type, is_jump, is_branch, is_i}
use llvm_mipt.Sim.Exec.{jump_target}
use llvm_mipt.Jit.Builder.{Builder, Emission, made, refused, ◌>>=◌}
use llvm_mipt.Jit.Emit.{emit_instr, no_cond, with_cond, unhandled}
use llvm_mipt.Jit.Compile.{Blocks, flow, emit_one}
use llvm_mipt.Instr.Kinds.{type-of_code, is_jump-code, is_branch-code, flow-is_i}
use llvm_mipt.Jit.Support.{
  is_made, imm-some, emit_r-made, emit_i-made, emit_icmp-made, emit_slt-made, emit_slti-made,
  emit_lui-made, emit_load-made, emit_store-made,
}
use llvm_mipt.Jit.Blocks.{is_some, Present}

-- `bne` is the one opcode that the second pass does not know.
abbrev pub is_translated : Instr → Bool
is_translated ins = not (get_opcode ins == code op_bne)

some-is_some {ℓ} : {A : Type ℓ} (x : Option A) → is_some x ≡ true → (a : A) × (x ≡ some a)
some-is_some none h = cc
some-is_some (some a) h = (a, refl)

type-none : (ins : Instr) → of_code (get_opcode ins) ≡ none → get_type ins ≡ invalid
unfolding get_type get_instr_type
type-none ins h = rw (h, get_instr_type) refl

jump-none : (ins : Instr) → of_code (get_opcode ins) ≡ none → is_jump ins ≡ false
unfolding is_jump code of_code
jump-none ins h = ground arith

translated-none : (ins : Instr) → of_code (get_opcode ins) ≡ none → is_translated ins ≡ true
unfolding code of_code
translated-none ins h = ground arith

module _ (b : Builder) (ins : Instr) (pc : ℕ) (bl : Blocks b) where
  open b use {Code, Value, Block}

  flow-none : (c : Code) → is_jump ins ≡ false → is_made (flow b none ins pc bl c) ≡ true
  unfolding flow
  flow-none c h = rw h refl

  flow-jump :
      (c : Code)
      → is_jump ins ≡ true
      → Present b bl ins pc
      → is_made (flow b none ins pc bl c) ≡ true
  unfolding flow
  flow-jump c h p =
      let f : (is_branch ins || is_jump ins) ≡ true = ground arith in
      let (i, e) = imm-some ins (flow-is_i ins f) in
      let t = some-is_some (bl (jump_target pc i)) (p f i e).0 in
      let n = some-is_some (bl (add32 pc 4)) (p f i e).1 in rw (h, e, t.1, n.1) refl

  flow-cond :
      (v : Value) (c : Code)
      → is_branch ins ≡ true
      → Present b bl ins pc
      → is_made (flow b (some v) ins pc bl c) ≡ true
  unfolding flow
  flow-cond v c h p =
      let f : (is_branch ins || is_jump ins) ≡ true = rw h refl in
      let (i, e) = imm-some ins (flow-is_i ins f) in
      let t = some-is_some (bl (jump_target pc i)) (p f i e).0 in
      let n = some-is_some (bl (add32 pc 4)) (p f i e).1 in rw (h, e, t.1, n.1) refl

  -- The control flow after the code of an instruction.
  abbrev with_flow : Emission (Option Value × Code) → Emission Code
  with_flow e = e >>= λ x. flow b x.0 ins pc bl x.1

  plain-made :
      (e : Emission Code)
      → is_made e ≡ true
      → is_jump ins ≡ false
      → is_made (with_flow (no_cond b e)) ≡ true
  plain-made (made c) h k = flow-none c k
  plain-made (refused e) h k = cc

  branch-made :
      (e : Emission (Value × Code))
      → is_made e ≡ true
      → is_branch ins ≡ true
      → Present b bl ins pc
      → is_made (with_flow (with_cond b e)) ≡ true
  branch-made (made x) h k p = flow-cond x.0 x.1 k p
  branch-made (refused e) h k p = cc

  code-made :
      (o : Opcode) (c : Code)
      → of_code (get_opcode ins) ≡ some o
      → Present b bl ins pc
      → is_made (with_flow (emit_instr b (some o) ins pc c)) ≡ not (code o == code op_bne)
  unfolding emit_instr code
  code-made op_add c h p =
      plain-made _ (emit_r-made b _ ins pc c (type-of_code ins op_add h))
        (is_jump-code ins op_add h)
  code-made op_and c h p =
      plain-made _ (emit_r-made b _ ins pc c (type-of_code ins op_and h))
        (is_jump-code ins op_and h)
  code-made op_or c h p =
      plain-made _ (emit_r-made b _ ins pc c (type-of_code ins op_or h)) (is_jump-code ins op_or h)
  code-made op_xor c h p =
      plain-made _ (emit_r-made b _ ins pc c (type-of_code ins op_xor h))
        (is_jump-code ins op_xor h)
  code-made op_sub c h p =
      plain-made _ (emit_r-made b _ ins pc c (type-of_code ins op_sub h))
        (is_jump-code ins op_sub h)
  code-made op_mul c h p =
      plain-made _ (emit_r-made b _ ins pc c (type-of_code ins op_mul h))
        (is_jump-code ins op_mul h)
  code-made op_divu c h p =
      plain-made _ (emit_r-made b _ ins pc c (type-of_code ins op_divu h))
        (is_jump-code ins op_divu h)
  code-made op_remu c h p =
      plain-made _ (emit_r-made b _ ins pc c (type-of_code ins op_remu h))
        (is_jump-code ins op_remu h)
  code-made op_slt c h p = plain-made _ (emit_slt-made b _ ins pc c) (is_jump-code ins op_slt h)
  code-made op_sltu c h p = plain-made _ (emit_slt-made b _ ins pc c) (is_jump-code ins op_sltu h)
  code-made op_addi c h p =
      plain-made _ (emit_i-made b ins (ap is_i (type-of_code ins op_addi h)) _ pc c)
        (is_jump-code ins op_addi h)
  code-made op_andi c h p =
      plain-made _ (emit_i-made b ins (ap is_i (type-of_code ins op_andi h)) _ pc c)
        (is_jump-code ins op_andi h)
  code-made op_ori c h p =
      plain-made _ (emit_i-made b ins (ap is_i (type-of_code ins op_ori h)) _ pc c)
        (is_jump-code ins op_ori h)
  code-made op_xori c h p =
      plain-made _ (emit_i-made b ins (ap is_i (type-of_code ins op_xori h)) _ pc c)
        (is_jump-code ins op_xori h)
  code-made op_subi c h p =
      plain-made _ (emit_i-made b ins (ap is_i (type-of_code ins op_subi h)) _ pc c)
        (is_jump-code ins op_subi h)
  code-made op_muli c h p =
      plain-made _ (emit_i-made b ins (ap is_i (type-of_code ins op_muli h)) _ pc c)
        (is_jump-code ins op_muli h)
  code-made op_diviu c h p =
      plain-made _ (emit_i-made b ins (ap is_i (type-of_code ins op_diviu h)) _ pc c)
        (is_jump-code ins op_diviu h)
  code-made op_remiu c h p =
      plain-made _ (emit_i-made b ins (ap is_i (type-of_code ins op_remiu h)) _ pc c)
        (is_jump-code ins op_remiu h)
  code-made op_slti c h p =
      plain-made _ (emit_slti-made b ins (ap is_i (type-of_code ins op_slti h)) _ pc c)
        (is_jump-code ins op_slti h)
  code-made op_sltiu c h p =
      plain-made _ (emit_slti-made b ins (ap is_i (type-of_code ins op_sltiu h)) _ pc c)
        (is_jump-code ins op_sltiu h)
  code-made op_lui c h p =
      plain-made _ (emit_lui-made b ins (ap is_i (type-of_code ins op_lui h)) pc c)
        (is_jump-code ins op_lui h)
  code-made op_load c h p =
      plain-made _ (emit_load-made b ins (ap is_i (type-of_code ins op_load h)) pc c)
        (is_jump-code ins op_load h)
  code-made op_store c h p =
      plain-made _ (emit_store-made b ins (ap is_i (type-of_code ins op_store h)) pc c)
        (is_jump-code ins op_store h)
  code-made op_beq c h p =
      branch-made _ (emit_icmp-made b _ ins pc c) (is_branch-code ins op_beq h) p
  code-made op_bgt c h p =
      branch-made _ (emit_icmp-made b _ ins pc c) (is_branch-code ins op_bgt h) p
  code-made op_bge c h p =
      branch-made _ (emit_icmp-made b _ ins pc c) (is_branch-code ins op_bge h) p
  code-made op_blt c h p =
      branch-made _ (emit_icmp-made b _ ins pc c) (is_branch-code ins op_blt h) p
  code-made op_ble c h p =
      branch-made _ (emit_icmp-made b _ ins pc c) (is_branch-code ins op_ble h) p
  code-made op_jalr c h p = flow-jump c (is_jump-code ins op_jalr h) p
  code-made op_bne c h p = rw (type-of_code ins op_bne h) refl

  invalid-made :
      (c : Code)
      → of_code (get_opcode ins) ≡ none
      → is_made (with_flow (unhandled b ins c)) ≡ is_translated ins
  invalid-made c h =
      rw (type-none ins h, flow-none c (jump-none ins h)) (sym (translated-none ins h))

  code-translated :
      (o : Opcode)
      → of_code (get_opcode ins) ≡ some o
      → not (code o == code op_bne) ≡ is_translated ins
  code-translated o h = ap (λ n. not (n == code op_bne)) (code-of_code (get_opcode ins) o h)

  pub emit_one-made :
      (c : Code) → Present b bl ins pc → is_made (emit_one b ins pc bl c) ≡ is_translated ins
  unfolding emit_one emit_instr
  emit_one-made c p = by_opcode (of_code (get_opcode ins)) refl
    where
      by_opcode :
          (o : Option Opcode)
          → of_code (get_opcode ins) ≡ o
          → is_made (with_flow (emit_instr b o ins pc c)) ≡ is_translated ins
      by_opcode (some o) h = code-made o c h p ∙ code-translated o h
      by_opcode none h = invalid-made c h
