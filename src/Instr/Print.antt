-- ===== src/Instr/Print.antt =====
-- `Instr::print` of asm/src/Instr.h, as the pieces that go to the stream: texts, decimal and
-- hexadecimal numbers, and line ends.
use llvm_mipt.Base.{ℕ, ◌≡◌, ◌≢◌, Option, none, some, List, [], ◌∷◌, ◌++◌, String, arith, refl}
use llvm_mipt.Instr.Opcodes.{InstrType, invalid, si_type, ui_type, r_type, get_instr_mnemonic}
use llvm_mipt.Instr.{Instr, r1, r2, r3, imm, get_type, get_opcode}

pub data Piece : Type 0 where
  text : String → Piece
  dec hex : ℕ → Piece
  endl : Piece

unfoldable pub get_mnemonic : Instr → String
get_mnemonic i = get_instr_mnemonic (get_opcode i)

operands : Instr → List Piece
operands i = text (get_mnemonic i) ∷ text " r" ∷ dec (r1 i) ∷ text ", r" ∷ dec (r2 i) ∷ []

-- The last operand; `none` is a failed assert of `r3` or `imm`.
last_operand : InstrType → Instr → Option (List Piece)
last_operand r_type i = elim (r3 i) [ none ↦ none | some c ↦ some (text ", r" ∷ dec c ∷ endl ∷ []) ]
last_operand _ i = elim (imm i) [ none ↦ none | some v ↦ some (text ", " ∷ dec v ∷ endl ∷ []) ]

print_as : InstrType → Instr → Option (List Piece)
unfolding last_operand operands
print_as invalid i = some (text ".word 0x" ∷ hex i.encoding ∷ endl ∷ [])
print_as t i = elim (last_operand t i) [ none ↦ none | some ps ↦ some (operands i ++ ps) ]

unfoldable pub print : Instr → Option (List Piece)
unfolding print_as
print i = print_as (get_type i) i

print_as-ne-none : (t : InstrType) (i : Instr) → get_type i ≡ t → print_as t i ≢ none
unfolding print_as r3 imm
print_as-ne-none invalid i h = λ e. cc
print_as-ne-none r_type i h = ground arith
print_as-ne-none si_type i h = ground arith
print_as-ne-none ui_type i h = ground arith

-- Every word prints: the asserts in the accessors that `print` calls never fail.
pub print-ne-none : (i : Instr) → print i ≢ none
unfolding print
print-ne-none i = print_as-ne-none (get_type i) i refl
