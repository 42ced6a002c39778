-- ===== src/Sim/Link.antt =====
-- Labels between `finalize` of asm/src/Assembler.cpp, which stores distances, and `Simulator::run` of
-- asm/src/qrisc-sim.cpp, which jumps by them.
use llvm_mipt.Base.{
  ℕ, ◌+◌, ◌-◌, ◌*◌, ◌%◌, ◌^◌, ◌≤◌, ◌<◌, ◌≡◌, ◌∙◌, true, false, ◌||◌, some, List, String, ltb,
  if◌then◌else◌, arith,
}
use llvm_mipt.Base.Word.{add32, sub32, mul32, to_u32-times_four}
use llvm_mipt.Instr.Opcodes.{
  si_type, op_beq, op_bne, op_bgt, op_bge, op_blt, op_ble, op_jalr, get_instr_type-code,
}
use llvm_mipt.Instr.{Instr, imm, sign_extend, get_type, is_jump, is_branch}
use llvm_mipt.Instr.Decode.{sign_extend_arith, sign_extend-lt}
use llvm_mipt.Asm.{label_imm, UnresolvedLabel}
use llvm_mipt.Asm.Finalize.{Patched}
use llvm_mipt.Sim.Exec.{jump_target}

-- A sign-extended field moves the base by four times its signed value.
pub jump_target-sign_extend :
    (base x : ℕ)
    → base < 2 ^ 32
    → x < 2 ^ 16
    → jump_target base (sign_extend x) ≡ (
        if ltb x 0x8000
        then (base + x * 4) % 2 ^ 32
        else (base + 2 ^ 32 - (2 ^ 16 - x) * 4) % 2 ^ 32)
unfolding jump_target
jump_target-sign_extend base x hb hx =
    rw (to_u32-times_four (sign_extend x) (sign_extend-lt x hx), sign_extend_arith x hx)
      (ground arith)

-- The low 16 bits of a short distance, taken as an offset in instructions, lead to the target.
jump_back :
    (target idx : ℕ)
    → target < 2 ^ 30
    → idx < 2 ^ 30
    → target < idx + 2 ^ 15
    → idx ≤ target + 2 ^ 15
    → jump_target (idx * 4) (sign_extend (sub32 target idx % 2 ^ 16)) ≡ target * 4
jump_back target idx ht hi up down =
    jump_target-sign_extend (idx * 4) (sub32 target idx % 2 ^ 16) (omega arith) (omega arith)
    ∙ ground arith

-- Branches and the jump have a sign-extended immediate.
jumps-si_type : (i : Instr) → (is_jump i || is_branch i) ≡ true → get_type i ≡ si_type
unfolding is_jump is_branch get_type
jumps-si_type i h = ground (
  arith,
  get_instr_type-code op_beq,
  get_instr_type-code op_bne,
  get_instr_type-code op_bgt,
  get_instr_type-code op_bge,
  get_instr_type-code op_blt,
  get_instr_type-code op_ble,
  get_instr_type-code op_jalr,
  h,
)

-- The offset that `finalize` patches, from the address of the instruction, for a label less than
-- 2 ^ 15 instructions away.
pub jump_target-Patched :
    (labels : List (String × ℕ)) (is js : List Instr) (u : UnresolvedLabel)
    (p : Patched labels is js u)
    → (is_jump p.user || is_branch p.user) ≡ true
    → p.target < 2 ^ 30
    → u.instr_idx < 2 ^ 30
    → p.target < u.instr_idx + 2 ^ 15
    → u.instr_idx ≤ p.target + 2 ^ 15
    → (v : ℕ) × (imm p.patch ≡ some v) × (jump_target (u.instr_idx * 4) v ≡ p.target * 4)
unfolding label_imm
jump_target-Patched labels is js u p j ht hi up down = (
  sign_extend (sub32 p.target u.instr_idx % 2 ^ 16),
  p.new_imm ∙ rw (jumps-si_type p.user j, j, label_imm),
  jump_back p.target u.instr_idx ht hi up down,
)

-- A sign-extended instruction that names a label and is no jump and no branch gets the distance in
-- bytes: added to the instruction's address it gives the label's, if the label is less than 2 ^ 13
-- instructions away.
pub address-Patched :
    (labels : List (String × ℕ)) (is js : List Instr) (u : UnresolvedLabel)
    (p : Patched labels is js u)
    → (is_jump p.user || is_branch p.user) ≡ false
    → get_type p.user ≡ si_type
    → p.target < 2 ^ 30
    → u.instr_idx < 2 ^ 30
    → p.target < u.instr_idx + 2 ^ 13
    → u.instr_idx ≤ p.target + 2 ^ 13
    → (v : ℕ) × (imm p.patch ≡ some v) × (add32 (u.instr_idx * 4) v ≡ p.target * 4)
unfolding label_imm
address-Patched labels is js u p j t ht hi up down =
    let x = mul32 (sub32 p.target u.instr_idx) 4 % 2 ^ 16 in
    (
      sign_extend x,
      p.new_imm ∙ rw (t, j, label_imm),
      ground (arith, sign_extend_arith x (omega arith)),
    )
