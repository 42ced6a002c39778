-- ===== src/Instr.antt =====
-- asm/src/Instr.h: the encoding of qrisc instructions. An `Instr` is its 32-bit word; opcodes,
-- registers and immediates are `unsigned`. A failed `assert` is `none`.
pub mod Opcodes
pub mod Decode
pub mod Kinds
pub mod Encode
pub mod Print
pub mod RoundTrip
mod Tests
use llvm_mipt.Base.{
  ℕ, ◌+◌, ◌-◌, ◌*◌, ◌/◌, ◌%◌, ◌^◌, Bool, true, false, not, ◌&&◌, ◌||◌, Option, none, some, ◌==◌,
  if◌then◌else◌, bit_and, bit_or,
}
use llvm_mipt.Base.Word.{shl32, shr, not32}
use Opcodes.{
  Opcode, op_jalr, op_beq, op_bne, op_bgt, op_bge, op_blt, op_ble, InstrType, invalid, r_type,
  si_type, ui_type, get_instr_type, code,
}

abbrev pub instr_opcode_shift : ℕ
instr_opcode_shift = 26

abbrev pub instr_r1_shift : ℕ
instr_r1_shift = 21

abbrev pub instr_r2_shift : ℕ
instr_r2_shift = 16

abbrev pub instr_r3_shift : ℕ
instr_r3_shift = 11

abbrev pub reg_count : ℕ
reg_count = 32

abbrev pub instr_r_mask : ℕ
instr_r_mask = reg_count - 1

abbrev pub instr_imm_mask : ℕ
instr_imm_mask = 0xffff

abbrev pub reg_zero : ℕ
reg_zero = 0

abbrev pub reg_sp : ℕ
reg_sp = 29

abbrev pub reg_bp : ℕ
reg_bp = 30

abbrev pub reg_pc : ℕ
reg_pc = 31

pub record Instr : Type 0 where
  pub encoding : ℕ

-- The test of the asserts: no bit above the register mask is set.
abbrev pub is_reg : ℕ → Bool
is_reg r = bit_and r (not32 instr_r_mask) == 0

abbrev pub is_r : InstrType → Bool
is_r r_type = true
is_r _ = false

abbrev pub is_i : InstrType → Bool
is_i si_type = true
is_i ui_type = true
is_i _ = false

abbrev pub assert {ℓ} : {A : Type ℓ} → Bool → A → Option A
assert true x = some x
assert false x = none

unfoldable pub make_r_instr : ℕ → ℕ → ℕ → ℕ → Option Instr
make_r_instr opcode r1 r2 r3 =
    assert (is_reg r1 && is_reg r2 && is_reg r3 && is_r (get_instr_type opcode)) (record {
      encoding =
          bit_or
            (bit_or (bit_or (shl32 opcode instr_opcode_shift) (shl32 r1 instr_r1_shift))
              (shl32 r2 instr_r2_shift))
            (shl32 r3 instr_r3_shift);
    })

unfoldable pub make_i_instr : ℕ → ℕ → ℕ → ℕ → Option Instr
make_i_instr opcode r1 r2 imm =
    assert (is_reg r1 && is_reg r2 && is_i (get_instr_type opcode)) (record {
      encoding =
          bit_or
            (bit_or (bit_or (shl32 opcode instr_opcode_shift) (shl32 r1 instr_r1_shift))
              (shl32 r2 instr_r2_shift))
            (bit_and imm instr_imm_mask);
    })

unfoldable pub get_opcode : Instr → ℕ
get_opcode i = shr i.encoding instr_opcode_shift

unfoldable pub get_type : Instr → InstrType
get_type i = get_instr_type (get_opcode i)

unfoldable pub r1 : Instr → ℕ
r1 i = bit_and (shr i.encoding instr_r1_shift) instr_r_mask

unfoldable pub r2 : Instr → ℕ
r2 i = bit_and (shr i.encoding instr_r2_shift) instr_r_mask

unfoldable pub r3 : Instr → Option ℕ
r3 i = assert (is_r (get_type i)) (bit_and (shr i.encoding instr_r3_shift) instr_r_mask)

-- `(Imm & MSB) ? (~INSTR_IMM_MASK | Imm) : Imm`, with the most significant bit of the field.
unfoldable pub sign_extend : ℕ → ℕ
sign_extend imm =
    if bit_and imm (shr (instr_imm_mask + 1) 1) == 0 then imm else bit_or (not32 instr_imm_mask) imm

abbrev pub extend_imm : InstrType → ℕ → Option ℕ
extend_imm ui_type imm = some imm
extend_imm si_type imm = some (sign_extend imm)
extend_imm _ imm = none

unfoldable pub imm : Instr → Option ℕ
imm i = extend_imm (get_type i) (bit_and i.encoding instr_imm_mask)

unfoldable pub is_jump : Instr → Bool
is_jump i = get_opcode i == code op_jalr

unfoldable pub is_branch : Instr → Bool
is_branch i =
    let opcode = get_opcode i in
    opcode == code op_beq
    || opcode == code op_bne
    || opcode == code op_bgt
    || opcode == code op_bge
    || opcode == code op_blt
    || opcode == code op_ble
