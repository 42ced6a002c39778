-- ===== src/Instr/Decode.antt =====
-- What the accessors of asm/src/Instr.h read: the fields of the word as arithmetic, and the sign
-- extension of an immediate.
use llvm_mipt.Base.{
  ℕ, ◌+◌, ◌-◌, ◌*◌, ◌/◌, ◌%◌, ◌^◌, ◌<◌, ◌≡◌, some, ltb, if◌then◌else◌, subst, arith, bit_and,
}
use llvm_mipt.Base.Word.{pos, negsuc, int32}
use llvm_mipt.Base.Bits.{and_mask, and_high, or_join}
use llvm_mipt.Instr.Opcodes.{r_type}
use llvm_mipt.Instr.{Instr, r1, r2, r3, imm, sign_extend, get_type, extend_imm}

pub r1_field : (i : Instr) → r1 i ≡ i.encoding / 2 ^ 21 % 32
unfolding r1
r1_field i = and_mask 5 (i.encoding / 2 ^ 21)

pub r2_field : (i : Instr) → r2 i ≡ i.encoding / 2 ^ 16 % 32
unfolding r2
r2_field i = and_mask 5 (i.encoding / 2 ^ 16)

pub r3_field : (i : Instr) → get_type i ≡ r_type → r3 i ≡ some (i.encoding / 2 ^ 11 % 32)
unfolding r3
r3_field i h = rw (h, and_mask 5 (i.encoding / 2 ^ 11))

pub imm_field : (i : Instr) → imm i ≡ extend_imm (get_type i) (i.encoding % 2 ^ 16)
unfolding imm
imm_field i = rw (and_mask 16 i.encoding)

pub r1-lt : (i : Instr) → r1 i < 32
r1-lt i = omega (arith, r1_field i)

pub r2-lt : (i : Instr) → r2 i < 32
r2-lt i = omega (arith, r2_field i)

-- The tested bit of a 16-bit field.
msb_lem : (x : ℕ) → bit_and x 0x8000 ≡ x / 2 ^ 15 % 2 * 2 ^ 15
msb_lem x =
    let e : x / 2 ^ 15 * 2 ^ 15 + x % 2 ^ 15 ≡ x = omega arith in
    let h : bit_and (x / 2 ^ 15 * 2 ^ 15 + x % 2 ^ 15) (1 * 2 ^ 15)
        ≡ bit_and (x / 2 ^ 15) 1 * 2 ^ 15 =
      and_high 15 (x / 2 ^ 15) 1 (x % 2 ^ 15) (omega arith) in
    subst (λ t. bit_and t 0x8000 ≡ x / 2 ^ 15 % 2 * 2 ^ 15) e
      (omega (arith, h, and_mask 1 (x / 2 ^ 15)))

pub sign_extend_arith :
    (x : ℕ) → x < 2 ^ 16 → sign_extend x ≡ (if ltb x 0x8000 then x else x + 0xffff0000)
unfolding sign_extend
sign_extend_arith x h = ground (arith, msb_lem x, or_join 16 0xffff x h)

pub sign_extend-lt : (x : ℕ) → x < 2 ^ 16 → sign_extend x < 2 ^ 32
sign_extend-lt x h = ground (arith, sign_extend_arith x h)

-- Read as an `int32_t`, the extended field is the field's own value in 16-bit two's complement.
pub int32-sign_extend :
    (x : ℕ)
    → x < 2 ^ 16
    → int32 (sign_extend x) ≡ (if ltb x 0x8000 then pos x else negsuc (0xffff - x))
int32-sign_extend x h = ground (arith, sign_extend_arith x h)
