-- ===== src/Mercy/Codegen/Operands.antt =====
-- What mercy/src/Sema.cpp has found of the operands of what it accepts.
use llvm_mipt.Base.{
  ◌≡◌, refl, sym, ap, ◌∙◌, Bool, true, false, ◌&&◌, none, some, Bool-cases, inl, inr,
}
use llvm_mipt.Mercy.Types.{
  BuiltinKind, Ty, builtin_type, array_type, function_type, meta_type, null_ty, bool_ty, is_integer,
}
use llvm_mipt.Mercy.Types.Equality.{ty_eq, ty_eq_iff}
use llvm_mipt.Mercy.Ast.{BinOpKind, assign_op, UnaryOpKind, not_op}
use llvm_mipt.Mercy.Sema.State.{ok, error, invalid_not_operand, invalid_index}
use llvm_mipt.Mercy.Sema.Operators.{
  act_on_unary_operator, act_on_array_subscript, elem_ty, expect_builtin,
}
use llvm_mipt.Mercy.Sema.Typing.{class_of, rule, typing}
use llvm_mipt.Mercy.Codegen.Values.{is_assign, binary_instr}

-- What `Sema` has found of the operands of an accepted operator.
pub binary_operands :
    (op : BinOpKind) (lv : Bool) (a b t : Ty)
    → typing op lv a b ≡ some t
    → (k : BuiltinKind) × (a ≡ builtin_type k)
      × (b ≡ builtin_type k)
      × (rule (class_of op) lv k ≡ some t)
binary_operands op lv (builtin_type k) b t h = elim (Bool-cases (ty_eq (builtin_type k) b)) [
  | inl e ↦ (k, refl, sym ((ty_eq_iff (builtin_type k) b).0 e), rw e at h)
  | inr e ↦ let z : none ≡ some t = rw e at h in cc
]
binary_operands op lv (array_type a) b t h = cc
binary_operands op lv (function_type r ps) b t h = cc
binary_operands op lv meta_type b t h = cc
binary_operands op lv null_ty b t h = cc

pub and-both : (a b : Bool) → (a && b) ≡ true → (a ≡ true) × (b ≡ true)
and-both true b h = (refl, h)
and-both false b h = cc

pub assigned :
    (op : BinOpKind) (lv : Bool) (k : BuiltinKind) (t : Ty)
    → is_assign op ≡ true
    → rule (class_of op) lv k ≡ some t
    → (lv ≡ true) × (t ≡ builtin_type k) × (binary_instr op k k ≡ none)
unfolding binary_instr
assigned assign_op true k t a h = (refl, cc, refl)
assigned assign_op false k t a h = cc
assigned _ lv k t a h = cc

pub unary_operand :
    (op : UnaryOpKind) (t u : Ty)
    → act_on_unary_operator op t ≡ ok u
    → (t ≡ bool_ty) × (u ≡ bool_ty)
unfolding act_on_unary_operator
unary_operand not_op t u h = elim (Bool-cases (ty_eq t bool_ty)) [
  | inl e ↦
      let same : t ≡ bool_ty = (ty_eq_iff t bool_ty).0 e in
      let z : ok t ≡ ok u = rw (e, act_on_unary_operator) at h in
      let y : t ≡ u = cc in (same, sym y ∙ same)
  | inr e ↦ let z : error invalid_not_operand ≡ ok u = rw (e, act_on_unary_operator) at h in cc
]

pub subscript_operands :
    (a i t : Ty)
    → act_on_array_subscript a i ≡ ok t
    → (a ≡ array_type t) × (j : BuiltinKind) × (i ≡ builtin_type j) × (is_integer j ≡ true)
unfolding act_on_array_subscript elem_ty expect_builtin
subscript_operands (array_type b) (builtin_type j) t h = elim (Bool-cases (is_integer j)) [
  | inl e ↦
      let z : ok b ≡ ok t = rw (e, act_on_array_subscript) at h in (ap array_type cc, j, refl, e)
  | inr e ↦ let z : error invalid_index ≡ ok t = rw (e, act_on_array_subscript) at h in cc
]
subscript_operands (array_type b) (array_type c) t h = cc
subscript_operands (array_type b) (function_type r ps) t h = cc
subscript_operands (array_type b) meta_type t h = cc
subscript_operands (array_type b) null_ty t h = cc
subscript_operands (builtin_type k) i t h = cc
subscript_operands (function_type r ps) i t h = cc
subscript_operands meta_type i t h = cc
subscript_operands null_ty i t h = cc
