-- ===== src/Instr/Tests.antt =====
-- Instructions of asm/examples encoded and decoded.
use llvm_mipt.Base.{◌^◌, ◌<◌, ◌≡◌, ◌≢◌, ◌↔◌, refl, none, some, true, arith}
use llvm_mipt.Base.Word.{int32, negsuc}
use llvm_mipt.Instr.Opcodes.{op_add, op_lui, code, of_code, get_instr_type}
use llvm_mipt.Instr.{
  Instr, r1, r2, r3, imm, is_i, make_r_instr, make_i_instr, get_opcode, get_type, sign_extend,
}
use llvm_mipt.Instr.Decode.{int32-sign_extend}
use llvm_mipt.Instr.Print.{print, print-ne-none}
use llvm_mipt.Instr.RoundTrip.{
  make_r_instr-fields, make_i_instr-fields, make_r_instr-decode, make_i_instr-decode,
  make_i_instr_guard,
}

-- `addi r12, r0, -1` and `add r1, r2, r3`
abbrev addi_word : Instr
addi_word = record { encoding = 0x0980ffff }

abbrev add_word : Instr
add_word = record { encoding = 0x04221800 }

addi_encodes : make_i_instr 0x02 12 0 0xffffffff ≡ some addi_word
unfolding make_i_instr get_instr_type of_code
addi_encodes = refl

add_encodes : make_r_instr 0x01 1 2 3 ≡ some add_word
unfolding make_r_instr get_instr_type of_code
add_encodes = refl

addi_imm : imm addi_word ≡ some 0xffffffff
unfolding imm get_type get_instr_type of_code get_opcode sign_extend
addi_imm = refl

make_r_instr-fields_example :
    (i : Instr) × (make_r_instr (code op_add) 1 2 3 ≡ some i)
    × (i.encoding < 2 ^ 32)
    × (get_opcode i ≡ code op_add)
    × (r1 i ≡ 1)
    × (r2 i ≡ 2)
    × (r3 i ≡ some 3)
make_r_instr-fields_example =
    make_r_instr-fields op_add 1 2 3 refl (omega arith) (omega arith) (omega arith)

make_i_instr-fields_example :
    (i : Instr) × (make_i_instr (code op_lui) 12 0 0x12345 ≡ some i)
    × (i.encoding < 2 ^ 32)
    × (get_opcode i ≡ code op_lui)
    × (r1 i ≡ 12)
    × (r2 i ≡ 0)
    × (imm i ≡ some 0x2345)
make_i_instr-fields_example =
    make_i_instr-fields op_lui 12 0 0x12345 refl (omega arith) (omega arith)

addi_type : is_i (get_type addi_word) ≡ true
unfolding get_type get_instr_type of_code get_opcode
addi_type = refl

make_i_instr-decode_example :
    make_i_instr (get_opcode addi_word) (r1 addi_word) (r2 addi_word) 0xffffffff ≡ some addi_word
make_i_instr-decode_example =
    make_i_instr-decode addi_word 0xffffffff (omega arith) addi_type addi_imm

abbrev add_junk : Instr
add_junk = record { encoding = 0x04221fff }

make_r_instr-decode_example :
    make_r_instr (get_opcode add_junk) (r1 add_junk) (r2 add_junk) 3 ≡ some add_word
unfolding get_type get_instr_type of_code get_opcode r3
make_r_instr-decode_example = make_r_instr-decode add_junk 3 (omega arith) refl refl

make_i_instr_guard_example :
    (make_i_instr 0x02 40 0 7 ≢ none) ↔ ((40 < 32) × (0 < 32) × (is_i (get_instr_type 0x02) ≡ true))
make_i_instr_guard_example = make_i_instr_guard 0x02 40 0 7 (omega arith) (omega arith)

int32-sign_extend_example : int32 (sign_extend 0xfffe) ≡ negsuc 1
int32-sign_extend_example = int32-sign_extend 0xfffe (omega arith)

print-ne-none_example : print add_junk ≢ none
print-ne-none_example = print-ne-none add_junk
