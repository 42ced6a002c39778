-- ===== src/Instr/Encode.antt =====
-- Lemmas on encoding and decoding of asm/src/Instr.h.
use llvm_mipt.Base.{
  ℕ, ◌+◌, ◌*◌, ◌/◌, ◌%◌, ◌^◌, ◌<◌, ◌≡◌, ◌∙◌, ap, true, some, subst, arith, bit_and, bit_or, ◌↔◌,
}
use llvm_mipt.Base.Word.{shl32}
use llvm_mipt.Base.Bits.{and_mask, and_high, or_join}
use llvm_mipt.Instr.Opcodes.{Opcode, r_type, code, code-lt, type_of, get_instr_type-code}
use llvm_mipt.Instr.{is_reg, is_i, make_r_instr, make_i_instr}

-- The assert on a register holds exactly for the 32 registers.
pub is_reg_iff : (r : ℕ) → r < 2 ^ 32 → (is_reg r ≡ true) ↔ (r < 32)
is_reg_iff r h =
    let e : r / 2 ^ 5 * 2 ^ 5 + r % 2 ^ 5 ≡ r = omega arith in
    let split : bit_and r 0xffffffe0 ≡ r / 2 ^ 5 % 2 ^ 27 * 2 ^ 5 =
      subst (λ t. bit_and t 0xffffffe0 ≡ r / 2 ^ 5 % 2 ^ 27 * 2 ^ 5) e
        (and_high 5 (r / 2 ^ 5) 0x7ffffff (r % 2 ^ 5) (omega arith)
          ∙ ap (λ (t : ℕ). t * 2 ^ 5) (and_mask 27 (r / 2 ^ 5))) in
    ground (arith, split)

-- The word that three fields above bit 11, or two above bit 16, make.
abbrev pub word_of : ℕ → ℕ → ℕ → ℕ → ℕ
word_of opcode a b low = opcode * 2 ^ 26 + a * 2 ^ 21 + b * 2 ^ 16 + low

join_fields :
    (o a b low : ℕ)
    → o < 64
    → a < 32
    → b < 32
    → low < 2 ^ 16
    → bit_or (bit_or (bit_or (shl32 o 26) (shl32 a 21)) (shl32 b 16)) low ≡ word_of o a b low
join_fields o a b low ho ha hb hl =
    let eo : shl32 o 26 ≡ o * 2 ^ 26 = omega arith in
    let ea : shl32 a 21 ≡ a * 2 ^ 21 = omega arith in
    let eb : shl32 b 16 ≡ b * 2 ^ 16 = omega arith in
    let j1 : bit_or (o * 2 ^ 26) (a * 2 ^ 21) ≡ (o * 32 + a) * 2 ^ 21 =
      or_join 26 o (a * 2 ^ 21) (omega arith) ∙ omega arith in
    let j2 : bit_or ((o * 32 + a) * 2 ^ 21) (b * 2 ^ 16) ≡ ((o * 32 + a) * 32 + b) * 2 ^ 16 =
      or_join 21 (o * 32 + a) (b * 2 ^ 16) (omega arith) ∙ omega arith in
    rw (eo, ea, eb, j1, j2) (or_join 16 ((o * 32 + a) * 32 + b) low hl ∙ omega arith)

pub make_r_instr_lem :
    (o : Opcode) (a b c : ℕ)
    → type_of o ≡ r_type
    → a < 32
    → b < 32
    → c < 32
    → make_r_instr (code o) a b c ≡ some (record { encoding = word_of (code o) a b (c * 2 ^ 11) })
unfolding make_r_instr
make_r_instr_lem o a b c t ha hb hc =
    let ec : shl32 c 11 ≡ c * 2 ^ 11 = omega arith in
    rw
      (
        get_instr_type-code o,
        t,
        ec,
        join_fields (code o) a b (c * 2 ^ 11) (code-lt o) ha hb (omega arith),
      )
      (ground (
        arith,
        (is_reg_iff a (omega arith)).1 ha,
        (is_reg_iff b (omega arith)).1 hb,
        (is_reg_iff c (omega arith)).1 hc,
      ))

pub make_i_instr_lem :
    (o : Opcode) (a b x : ℕ)
    → is_i (type_of o) ≡ true
    → a < 32
    → b < 32
    → make_i_instr (code o) a b x ≡ some (record { encoding = word_of (code o) a b (x % 2 ^ 16) })
unfolding make_i_instr
make_i_instr_lem o a b x t ha hb =
    rw
      (
        get_instr_type-code o,
        t,
        and_mask 16 x,
        join_fields (code o) a b (x % 2 ^ 16) (code-lt o) ha hb (omega arith),
      )
      (ground (arith, (is_reg_iff a (omega arith)).1 ha, (is_reg_iff b (omega arith)).1 hb))
