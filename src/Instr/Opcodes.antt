-- ===== src/Instr/Opcodes.antt =====
-- The opcodes of asm/src/Instr.h, their encodings, instruction types and mnemonics.
use llvm_mipt.Base.{
  ℕ, ◌<◌, ◌≡◌, refl, Option, none, some, List, [], ◌∷◌, String, ◌==◌, if◌then◌else◌, arith,
}

pub data Opcode : Type 0 where
  op_add op_addi op_and op_andi op_or op_ori op_xor op_xori op_sub op_subi op_mul op_muli : Opcode
  op_divu op_diviu op_remu op_remiu op_slt op_sltu op_slti op_sltiu op_lui op_load : Opcode
  op_store op_beq op_bne op_bgt op_bge op_blt op_ble op_jalr : Opcode

pub data InstrType : Type 0 where
  invalid r_type si_type ui_type : InstrType

-- The values of the `OPCODE_…` enumerators.
unfoldable pub code : Opcode → ℕ
code op_add = 0x01
code op_addi = 0x02
code op_and = 0x03
code op_andi = 0x04
code op_or = 0x05
code op_ori = 0x06
code op_xor = 0x07
code op_xori = 0x08
code op_sub = 0x09
code op_subi = 0x0a
code op_mul = 0x0b
code op_muli = 0x0c
code op_divu = 0x0d
code op_diviu = 0x0e
code op_remu = 0x0f
code op_remiu = 0x10
code op_slt = 0x11
code op_sltu = 0x12
code op_slti = 0x13
code op_sltiu = 0x14
code op_lui = 0x15
code op_load = 0x16
code op_store = 0x17
code op_beq = 0x28
code op_bne = 0x29
code op_bgt = 0x2a
code op_bge = 0x2b
code op_blt = 0x2c
code op_ble = 0x2d
code op_jalr = 0x2e

abbrev pub all_opcodes : List Opcode
all_opcodes =
    op_add ∷ op_addi ∷ op_and ∷ op_andi ∷ op_or ∷ op_ori ∷ op_xor ∷ op_xori ∷ op_sub ∷ op_subi
    ∷ op_mul ∷ op_muli ∷ op_divu ∷ op_diviu ∷ op_remu ∷ op_remiu ∷ op_slt ∷ op_sltu ∷ op_slti
    ∷ op_sltiu ∷ op_lui ∷ op_load ∷ op_store ∷ op_beq ∷ op_bne ∷ op_bgt ∷ op_bge ∷ op_blt ∷ op_ble
    ∷ op_jalr ∷ []

find_code : ℕ → List Opcode → Option Opcode
find_code n [] = none
find_code n (o ∷ os) = let rest = find_code n os in if code o == n then some o else rest

-- Which `case` of a `switch` over the opcodes a number takes; `none` is the `default`.
unfoldable pub of_code : ℕ → Option Opcode
unfolding find_code code
of_code n = find_code n all_opcodes

abbrev pub type_of : Opcode → InstrType
type_of op_add = r_type
type_of op_and = r_type
type_of op_or = r_type
type_of op_xor = r_type
type_of op_sub = r_type
type_of op_mul = r_type
type_of op_divu = r_type
type_of op_remu = r_type
type_of op_slt = r_type
type_of op_sltu = r_type
type_of op_addi = si_type
type_of op_andi = si_type
type_of op_ori = si_type
type_of op_xori = si_type
type_of op_subi = si_type
type_of op_muli = si_type
type_of op_slti = si_type
type_of op_beq = si_type
type_of op_bne = si_type
type_of op_bgt = si_type
type_of op_bge = si_type
type_of op_blt = si_type
type_of op_ble = si_type
type_of op_jalr = si_type
type_of op_load = si_type
type_of op_store = si_type
type_of op_diviu = ui_type
type_of op_remiu = ui_type
type_of op_sltiu = ui_type
type_of op_lui = ui_type

unfoldable pub get_instr_type : ℕ → InstrType
get_instr_type n = elim (of_code n) [ none ↦ invalid | some o ↦ type_of o ]

abbrev pub mnemonic_of : Opcode → String
mnemonic_of op_add = "add"
mnemonic_of op_addi = "addi"
mnemonic_of op_and = "and"
mnemonic_of op_andi = "andi"
mnemonic_of op_or = "or"
mnemonic_of op_ori = "ori"
mnemonic_of op_xor = "xor"
mnemonic_of op_xori = "xori"
mnemonic_of op_sub = "sub"
mnemonic_of op_subi = "subi"
mnemonic_of op_mul = "mul"
mnemonic_of op_muli = "muli"
mnemonic_of op_divu = "divu"
mnemonic_of op_diviu = "diviu"
mnemonic_of op_remu = "remu"
mnemonic_of op_remiu = "remiu"
mnemonic_of op_slt = "slt"
mnemonic_of op_slti = "slti"
mnemonic_of op_sltu = "sltu"
mnemonic_of op_sltiu = "sltiu"
mnemonic_of op_lui = "lui"
mnemonic_of op_load = "load"
mnemonic_of op_store = "store"
mnemonic_of op_beq = "beq"
mnemonic_of op_bne = "bne"
mnemonic_of op_bgt = "bgt"
mnemonic_of op_bge = "bge"
mnemonic_of op_blt = "blt"
mnemonic_of op_ble = "ble"
mnemonic_of op_jalr = "jalr"

unfoldable pub get_instr_mnemonic : ℕ → String
get_instr_mnemonic n = elim (of_code n) [ none ↦ ".word" | some o ↦ mnemonic_of o ]

pub of_code-code : (o : Opcode) → of_code (code o) ≡ some o
unfolding of_code
of_code-code op_add = refl
of_code-code _ = refl

find_code_sound : (n : ℕ) (os : List Opcode) (o : Opcode) → find_code n os ≡ some o → code o ≡ n
unfolding find_code
find_code_sound n [] o h = cc
find_code_sound n (p ∷ os) o h = ground (arith, find_code_sound n os o)

-- The `switch` recognises a number exactly as the opcode that it encodes.
pub code-of_code : (n : ℕ) (o : Opcode) → of_code n ≡ some o → code o ≡ n
code-of_code n o h = find_code_sound n all_opcodes o (unfold of_code in h)

pub code-lt : (o : Opcode) → code o < 64
unfolding code
code-lt op_add = omega arith
code-lt _ = omega arith

pub get_instr_type-code : (o : Opcode) → get_instr_type (code o) ≡ type_of o
unfolding get_instr_type
get_instr_type-code o = rw (of_code-code o, get_instr_type)
