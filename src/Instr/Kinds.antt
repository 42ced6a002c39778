-- ===== src/Instr/Kinds.antt =====
-- What the opcode of an instruction decides of it (asm/src/Instr.h).
use llvm_mipt.Base.{◌≡◌, refl, sym, true, ◌||◌, some, ◌==◌, arith}
use llvm_mipt.Instr.Opcodes.{
  Opcode, op_beq, op_bne, op_bgt, op_bge, op_blt, op_ble, op_jalr, code, of_code, type_of,
  get_instr_type, code-of_code,
}
use llvm_mipt.Instr.{Instr, get_opcode, get_type, is_jump, is_branch, is_i}

-- The type of a recognised instruction.
pub type-of_code :
    (ins : Instr) (o : Opcode) → of_code (get_opcode ins) ≡ some o → get_type ins ≡ type_of o
unfolding get_type get_instr_type
type-of_code ins o h = rw (h, get_instr_type)

-- What the opcode of a recognised instruction decides.
pub is_jump-code :
    (ins : Instr) (o : Opcode)
    → of_code (get_opcode ins) ≡ some o
    → is_jump ins ≡ (code o == code op_jalr)
unfolding is_jump
is_jump-code ins o h = rw (sym (code-of_code (get_opcode ins) o h)) refl

pub is_branch-code :
    (ins : Instr) (o : Opcode)
    → of_code (get_opcode ins) ≡ some o
    → is_branch ins ≡ (
        code o == code op_beq
        || code o == code op_bne
        || code o == code op_bgt
        || code o == code op_bge
        || code o == code op_blt
        || code o == code op_ble)
unfolding is_branch
is_branch-code ins o h = rw (sym (code-of_code (get_opcode ins) o h)) refl

-- Branches and jumps have an immediate.
pub flow-is_i : (ins : Instr) → (is_branch ins || is_jump ins) ≡ true → is_i (get_type ins) ≡ true
unfolding is_branch is_jump get_type code get_instr_type of_code
flow-is_i ins h = ground arith
