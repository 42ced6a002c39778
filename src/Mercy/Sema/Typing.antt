-- ===== src/Mercy/Sema/Typing.antt =====
-- Typing rules of the binary operators of Mercy, beside `actOnBinaryOperator` of mercy/src/Sema.cpp.
use llvm_mipt.Base.{◌≡◌, refl, Bool, true, false, Option, none, some, if◌then◌else◌}
use llvm_mipt.Mercy.Types.{
  BuiltinKind, void_kind, bool_kind, Ty, builtin_type, bool_ty, is_integer, is_unsigned, is_signed,
}
use llvm_mipt.Mercy.Types.Equality.{ty_eq}
use llvm_mipt.Mercy.Ast.{
  BinOpKind, assign_op, lor_op, land_op, or_op, xor_op, and_op, eq_op, ne_op, lt_op, gt_op, le_op,
  ge_op, lshift_op, rshift_op, add_op, sub_op, mul_op, div_op, rem_op,
}
use llvm_mipt.Mercy.Sema.State.{Outcome, ok, ◌>>=◌, require, operand_types_differ}
use llvm_mipt.Mercy.Sema.Operators.{
  is_bool, is_logical_op, is_bit_op, is_cmp, is_assignment, expect_builtin, check_operands,
  act_on_binary_operator,
}

pub data OpClass : Type 0 where
  assignment logical bitwise comparison arithmetic : OpClass

abbrev pub class_of : BinOpKind → OpClass
class_of assign_op = assignment
class_of lor_op = logical
class_of land_op = logical
class_of or_op = bitwise
class_of xor_op = bitwise
class_of and_op = bitwise
class_of eq_op = comparison
class_of ne_op = comparison
class_of lt_op = comparison
class_of gt_op = comparison
class_of le_op = comparison
class_of ge_op = comparison
class_of _ = arithmetic

-- The type of an expression by the class of its operator, whether its left operand is an lvalue,
-- and the kind of both operands.
abbrev pub rule : OpClass → Bool → BuiltinKind → Option Ty
rule assignment is_lvalue k = if is_lvalue then some (builtin_type k) else none
rule logical is_lvalue bool_kind = some bool_ty
rule logical is_lvalue _ = none
rule bitwise is_lvalue k = if is_unsigned k then some (builtin_type k) else none
rule comparison is_lvalue k = if is_integer k then some bool_ty else none
rule arithmetic is_lvalue k = if is_integer k then some (builtin_type k) else none

-- The rule for the types of both operands.
abbrev pub typing : BinOpKind → Bool → Ty → Ty → Option Ty
typing op is_lvalue (builtin_type k) r =
    if ty_eq (builtin_type k) r then rule (class_of op) is_lvalue k else none
typing op is_lvalue _ r = none

abbrev pub accepted {ℓ} : {A : Type ℓ} → Outcome A → Option A
accepted (ok a) = some a
accepted _ = none

operands :
    (op : BinOpKind) (b : Bool) (k : BuiltinKind)
    → accepted (check_operands op b k) ≡ rule (class_of op) b k
unfolding check_operands is_bool is_logical_op is_bit_op is_cmp is_assignment is_integer is_unsigned
    is_signed
operands assign_op true void_kind = refl
operands assign_op false void_kind = refl
operands lor_op b void_kind = refl
operands land_op b void_kind = refl
operands or_op b void_kind = refl
operands xor_op b void_kind = refl
operands and_op b void_kind = refl
operands eq_op b void_kind = refl
operands ne_op b void_kind = refl
operands lt_op b void_kind = refl
operands gt_op b void_kind = refl
operands le_op b void_kind = refl
operands ge_op b void_kind = refl
operands lshift_op b void_kind = refl
operands rshift_op b void_kind = refl
operands add_op b void_kind = refl
operands sub_op b void_kind = refl
operands mul_op b void_kind = refl
operands div_op b void_kind = refl
operands rem_op b void_kind = refl
operands _ _ _ = refl

accepted-require :
    (b : Bool) (o : Outcome Ty) (q : Option Ty)
    → accepted o ≡ q
    → accepted (require b operand_types_differ >>= λ u. o) ≡ (if b then q else none)
accepted-require true o q h = h
accepted-require false o q h = refl

pub accepted-act_on_binary_operator :
    (op : BinOpKind) (is_lvalue : Bool) (l r : Ty)
    → accepted (act_on_binary_operator op is_lvalue l r) ≡ typing op is_lvalue l r
unfolding act_on_binary_operator expect_builtin ty_eq
accepted-act_on_binary_operator op b (builtin_type j) (builtin_type k) =
    accepted-require (ty_eq (builtin_type j) (builtin_type k)) (check_operands op b j)
      (rule (class_of op) b j) (operands op b j)
accepted-act_on_binary_operator op b (builtin_type j) _ = refl
accepted-act_on_binary_operator op b _ r = refl
