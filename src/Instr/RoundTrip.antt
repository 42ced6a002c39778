-- ===== src/Instr/RoundTrip.antt =====
-- Encoding an instruction and reading its fields, and the other way round.
use llvm_mipt.Base.{
  ℕ, ◌-◌, ◌*◌, ◌/◌, ◌%◌, ◌^◌, ◌<◌, ◌≡◌, ◌≢◌, sym, ◌∙◌, ap, ap₂, true, none, some, subst, arith, inl,
  inr, ◌↔◌, Option-cases,
}
use llvm_mipt.Instr.Opcodes.{
  Opcode, InstrType, invalid, si_type, ui_type, r_type, code, code-lt, of_code, get_instr_type,
  type_of, get_instr_type-code, code-of_code,
}
use llvm_mipt.Instr.{
  Instr, r1, r2, r3, imm, get_type, get_opcode, extend_imm, is_i, make_r_instr, make_i_instr,
}
use llvm_mipt.Instr.Decode.{
  r1-lt, r2-lt, r1_field, r2_field, r3_field, imm_field, sign_extend_arith,
}
use llvm_mipt.Instr.Encode.{word_of, make_r_instr_lem, make_i_instr_lem, is_reg_iff}

get_opcode-word_of :
    (o : Opcode) (a b low : ℕ)
    → a < 32
    → b < 32
    → low < 2 ^ 16
    → get_opcode (record { encoding = word_of (code o) a b low }) ≡ code o
unfolding get_opcode
get_opcode-word_of o a b low ha hb hl = omega arith

get_type-word_of :
    (o : Opcode) (a b low : ℕ)
    → a < 32
    → b < 32
    → low < 2 ^ 16
    → get_type (record { encoding = word_of (code o) a b low }) ≡ type_of o
unfolding get_type
get_type-word_of o a b low ha hb hl =
    ap get_instr_type (get_opcode-word_of o a b low ha hb hl) ∙ get_instr_type-code o

-- Every R-type opcode with three registers encodes, and the word's fields read back as they were
-- given.
pub make_r_instr-fields :
    (o : Opcode) (a b c : ℕ)
    → type_of o ≡ r_type
    → a < 32
    → b < 32
    → c < 32
    → (i : Instr) × (make_r_instr (code o) a b c ≡ some i)
      × (i.encoding < 2 ^ 32)
      × (get_opcode i ≡ code o)
      × (r1 i ≡ a)
      × (r2 i ≡ b)
      × (r3 i ≡ some c)
make_r_instr-fields o a b c t ha hb hc =
    let i : Instr = record { encoding = word_of (code o) a b (c * 2 ^ 11) } in
    (
      i,
      make_r_instr_lem o a b c t ha hb hc,
      omega (arith, code-lt o),
      get_opcode-word_of o a b (c * 2 ^ 11) ha hb (omega arith),
      r1_field i ∙ omega (arith, code-lt o),
      r2_field i ∙ omega (arith, code-lt o),
      r3_field i (get_type-word_of o a b (c * 2 ^ 11) ha hb (omega arith) ∙ t)
          ∙ ap some (omega (arith, code-lt o)),
    )

-- Every I-type opcode with two registers and any immediate encodes; the registers read back, and
-- the immediate reads back as its low 16 bits, extended as the opcode's type says.
pub make_i_instr-fields :
    (o : Opcode) (a b x : ℕ)
    → is_i (type_of o) ≡ true
    → a < 32
    → b < 32
    → (i : Instr) × (make_i_instr (code o) a b x ≡ some i)
      × (i.encoding < 2 ^ 32)
      × (get_opcode i ≡ code o)
      × (r1 i ≡ a)
      × (r2 i ≡ b)
      × (imm i ≡ extend_imm (type_of o) (x % 2 ^ 16))
make_i_instr-fields o a b x t ha hb =
    let i : Instr = record { encoding = word_of (code o) a b (x % 2 ^ 16) } in
    (
      i,
      make_i_instr_lem o a b x t ha hb,
      omega (arith, code-lt o),
      get_opcode-word_of o a b (x % 2 ^ 16) ha hb (omega arith),
      r1_field i ∙ omega (arith, code-lt o),
      r2_field i ∙ omega (arith, code-lt o),
      imm_field i
          ∙ ap₂ extend_imm (get_type-word_of o a b (x % 2 ^ 16) ha hb (omega arith))
              (omega (arith, code-lt o)),
    )

-- A number whose type is not `Invalid` is the encoding of an opcode.
pub opcode_of_type :
    (n : ℕ)
    → get_instr_type n ≢ invalid
    → (o : Opcode) × (code o ≡ n) × (get_instr_type n ≡ type_of o)
unfolding get_instr_type
opcode_of_type n h = elim (Option-cases (of_code n)) [
  | inl e ↦ absurd (h (rw (e, get_instr_type)))
  | inr (o, e) ↦ (o, code-of_code n o e, rw (e, get_instr_type))
]

extend_imm-low : (t : InstrType) (x v : ℕ) → x < 2 ^ 16 → extend_imm t x ≡ some v → v % 2 ^ 16 ≡ x
extend_imm-low si_type x v h e = ground (arith, sign_extend_arith x h)
extend_imm-low ui_type x v h e = ground arith
extend_imm-low r_type x v h e = cc
extend_imm-low invalid x v h e = cc

pub is_i-ne-invalid : (t : InstrType) → is_i t ≡ true → t ≢ invalid
is_i-ne-invalid invalid h = cc
is_i-ne-invalid r_type h = cc
is_i-ne-invalid si_type h = λ e. cc
is_i-ne-invalid ui_type h = λ e. cc

pub r_type-ne-invalid : r_type ≢ invalid
r_type-ne-invalid e = cc

-- Encoding again what an I-type word decodes to gives the same word.
pub make_i_instr-decode :
    (i : Instr) (v : ℕ)
    → i.encoding < 2 ^ 32
    → is_i (get_type i) ≡ true
    → imm i ≡ some v
    → make_i_instr (get_opcode i) (r1 i) (r2 i) v ≡ some i
unfolding get_opcode get_type
make_i_instr-decode i v h t e =
    let (o, op, ty) = opcode_of_type (i.encoding / 2 ^ 26) (is_i-ne-invalid (get_type i) t) in
    let low : v % 2 ^ 16 ≡ i.encoding % 2 ^ 16 =
      extend_imm-low (get_type i) (i.encoding % 2 ^ 16) v (omega arith) (sym (imm_field i) ∙ e) in
    subst (λ n. make_i_instr n (r1 i) (r2 i) v ≡ some i) op
      (make_i_instr_lem o (r1 i) (r2 i) v (ap is_i (sym ty) ∙ t) (r1-lt i) (r2-lt i)
        ∙ ap (λ (n : ℕ). some (record { encoding = n }))
            (omega (arith, low, op, r1_field i, r2_field i)))

-- Encoding again what an R-type word decodes to gives the word with its 11 unused bits cleared.
pub make_r_instr-decode :
    (i : Instr) (c : ℕ)
    → i.encoding < 2 ^ 32
    → get_type i ≡ r_type
    → r3 i ≡ some c
    → make_r_instr (get_opcode i) (r1 i) (r2 i) c
      ≡ some (record { encoding = i.encoding - i.encoding % 2 ^ 11 })
unfolding get_opcode get_type
make_r_instr-decode i c h t e =
    let (o, op, ty) = opcode_of_type (i.encoding / 2 ^ 26) (λ z. r_type-ne-invalid (sym t ∙ z)) in
    let field : c ≡ i.encoding / 2 ^ 11 % 32 = cc (r3_field i t) in
    subst
      (λ n.
        make_r_instr n (r1 i) (r2 i) c
        ≡ some (record { encoding = i.encoding - i.encoding % 2 ^ 11 }))
      op
      (make_r_instr_lem o (r1 i) (r2 i) c (sym ty ∙ t) (r1-lt i) (r2-lt i) (omega arith)
        ∙ ap (λ (n : ℕ). some (record { encoding = n }))
            (omega (arith, field, op, r1_field i, r2_field i)))

-- With `unsigned` arguments, an I-type instruction is made exactly when both registers exist and
-- the opcode is of an I-type; otherwise an assert fails.
pub make_i_instr_guard :
    (n a b x : ℕ)
    → a < 2 ^ 32
    → b < 2 ^ 32
    → (make_i_instr n a b x ≢ none) ↔ ((a < 32) × (b < 32) × (is_i (get_instr_type n) ≡ true))
unfolding make_i_instr
make_i_instr_guard n a b x ha hb = (
  λ h. ground (arith, is_reg_iff a ha, is_reg_iff b hb, h),
  λ h. ground (arith, is_reg_iff a ha, is_reg_iff b hb),
)
