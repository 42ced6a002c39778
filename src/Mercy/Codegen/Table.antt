-- ===== src/Mercy/Codegen/Table.antt =====
-- The `switch` of `emitBinaryOperator` in mercy/src/Codegen.cpp, beside the types that
-- mercy/src/Sema.cpp gives to the operators.
use llvm_mipt.Base.{
  arith, ℕ, ◌≡◌, refl, Bool, true, false, none, some, Bool-cases, inl, inr, if◌then◌else◌,
}
use llvm_mipt.Mercy.Types.{
  BuiltinKind, void_kind, bool_kind, int8_kind, int16_kind, int32_kind, int64_kind, uint8_kind,
  uint16_kind, uint32_kind, uint64_kind, string_kind, Ty, builtin_type, is_integer, is_signed,
  is_unsigned, bool_ty,
}
use llvm_mipt.Mercy.Ast.{
  BinOpKind, assign_op, lor_op, land_op, or_op, xor_op, and_op, eq_op, ne_op, lt_op, gt_op, le_op,
  ge_op, lshift_op, rshift_op, add_op, sub_op, mul_op, div_op, rem_op,
}
use llvm_mipt.Mercy.Sema.Typing.{logical, class_of, rule}
use llvm_mipt.Mercy.Codegen.Api.{BinaryInstr}
use llvm_mipt.Mercy.Codegen.Values.{binary_instr, by_sign, is_assign}
use llvm_mipt.Mercy.Codegen.Documented.{result_width}
use llvm_mipt.Mercy.Codegen.Typing.{width, width-integer}

-- The instruction of an operator that is no assignment takes operands of the width of `k`, and gives
-- a value of the width of the type that the operator has.
abbrev pub Fits : BinOpKind → BuiltinKind → Ty → Type 0
Fits op k t =
    (i : BinaryInstr) × (r : BuiltinKind) × (w : ℕ) × (n : ℕ) × (t ≡ builtin_type r)
    × (binary_instr op r k ≡ some i)
    × (width k ≡ some w)
    × (result_width i w ≡ some n)
    × (width r ≡ some n)

if-some : (b : Bool) (a t : Ty) → (if b then some a else none) ≡ some t → (b ≡ true) × (t ≡ a)
if-some true a t h = (refl, cc)
if-some false a t h = cc

unsigned-integer : (k : BuiltinKind) → is_unsigned k ≡ true → is_integer k ≡ true
unfolding is_integer
unsigned-integer k h = ground arith

by_sign-width :
    (k : BuiltinKind) (i j : BinaryInstr) (w n : ℕ)
    → result_width i w ≡ some n
    → result_width j w ≡ some n
    → result_width (by_sign k i j) w ≡ some n
by_sign-width k i j w n h g = elim (Bool-cases (is_signed k)) [ inl e ↦ rw e h | inr e ↦ rw e g ]

integer-Fits :
    (op : BinOpKind) (k : BuiltinKind) (t : Ty) (i : BinaryInstr)
    → binary_instr op k k ≡ some i
    → ((w : ℕ) → result_width i w ≡ some w)
    → is_integer k ≡ true
    → t ≡ builtin_type k
    → Fits op k t
integer-Fits op k t i e f h g = let (w, x) = width-integer k h in (i, k, w, w, g, e, x, f w, x)

comparison-Fits :
    (op : BinOpKind) (k : BuiltinKind) (t : Ty) (i : BinaryInstr)
    → binary_instr op bool_kind k ≡ some i
    → ((w : ℕ) → result_width i w ≡ some 1)
    → is_integer k ≡ true
    → t ≡ bool_ty
    → Fits op k t
comparison-Fits op k t i e f h g =
    let (w, x) = width-integer k h in (i, bool_kind, w, 1, g, e, x, f w, refl)

logical-Fits :
    (op : BinOpKind) (lv : Bool) (k : BuiltinKind) (t : Ty) (i : BinaryInstr)
    → binary_instr op bool_kind bool_kind ≡ some i
    → result_width i 1 ≡ some 1
    → rule logical lv k ≡ some t
    → Fits op k t
logical-Fits op lv void_kind t i e f h = cc
logical-Fits op lv bool_kind t i e f h = (i, bool_kind, 1, 1, cc, e, refl, f, refl)
logical-Fits op lv int8_kind t i e f h = cc
logical-Fits op lv int16_kind t i e f h = cc
logical-Fits op lv int32_kind t i e f h = cc
logical-Fits op lv int64_kind t i e f h = cc
logical-Fits op lv uint8_kind t i e f h = cc
logical-Fits op lv uint16_kind t i e f h = cc
logical-Fits op lv uint32_kind t i e f h = cc
logical-Fits op lv uint64_kind t i e f h = cc
logical-Fits op lv string_kind t i e f h = cc

pub rule-Fits :
    (op : BinOpKind) (lv : Bool) (k : BuiltinKind) (t : Ty)
    → is_assign op ≡ false
    → rule (class_of op) lv k ≡ some t
    → Fits op k t
unfolding binary_instr
rule-Fits assign_op lv k t a h = cc
rule-Fits lor_op lv k t a h = logical-Fits lor_op lv k t _ refl refl h
rule-Fits land_op lv k t a h = logical-Fits land_op lv k t _ refl refl h
rule-Fits or_op lv k t a h =
    let (u, e) = if-some _ _ t h in
    integer-Fits or_op k t _ refl (λ w. refl) (unsigned-integer k u) e
rule-Fits xor_op lv k t a h =
    let (u, e) = if-some _ _ t h in
    integer-Fits xor_op k t _ refl (λ w. refl) (unsigned-integer k u) e
rule-Fits and_op lv k t a h =
    let (u, e) = if-some _ _ t h in
    integer-Fits and_op k t _ refl (λ w. refl) (unsigned-integer k u) e
rule-Fits add_op lv k t a h =
    let (u, e) = if-some _ _ t h in integer-Fits add_op k t _ refl (λ w. refl) u e
rule-Fits sub_op lv k t a h =
    let (u, e) = if-some _ _ t h in integer-Fits sub_op k t _ refl (λ w. refl) u e
rule-Fits mul_op lv k t a h =
    let (u, e) = if-some _ _ t h in integer-Fits mul_op k t _ refl (λ w. refl) u e
rule-Fits lshift_op lv k t a h =
    let (u, e) = if-some _ _ t h in integer-Fits lshift_op k t _ refl (λ w. refl) u e
rule-Fits rshift_op lv k t a h =
    let (u, e) = if-some _ _ t h in
    integer-Fits rshift_op k t _ refl (λ w. by_sign-width k _ _ w w refl refl) u e
rule-Fits div_op lv k t a h =
    let (u, e) = if-some _ _ t h in
    integer-Fits div_op k t _ refl (λ w. by_sign-width k _ _ w w refl refl) u e
rule-Fits rem_op lv k t a h =
    let (u, e) = if-some _ _ t h in
    integer-Fits rem_op k t _ refl (λ w. by_sign-width k _ _ w w refl refl) u e
rule-Fits eq_op lv k t a h =
    let (u, e) = if-some _ _ t h in comparison-Fits eq_op k t _ refl (λ w. refl) u e
rule-Fits ne_op lv k t a h =
    let (u, e) = if-some _ _ t h in comparison-Fits ne_op k t _ refl (λ w. refl) u e
rule-Fits le_op lv k t a h =
    let (u, e) = if-some _ _ t h in
    comparison-Fits le_op k t _ refl (λ w. by_sign-width k _ _ w 1 refl refl) u e
rule-Fits ge_op lv k t a h =
    let (u, e) = if-some _ _ t h in
    comparison-Fits ge_op k t _ refl (λ w. by_sign-width k _ _ w 1 refl refl) u e
rule-Fits lt_op lv k t a h =
    let (u, e) = if-some _ _ t h in
    comparison-Fits lt_op k t _ refl (λ w. by_sign-width k _ _ w 1 refl refl) u e
rule-Fits gt_op lv k t a h =
    let (u, e) = if-some _ _ t h in
    comparison-Fits gt_op k t _ refl (λ w. by_sign-width k _ _ w 1 refl refl) u e
