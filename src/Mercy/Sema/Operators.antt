-- ===== src/Mercy/Sema/Operators.antt =====
-- `actOnBinaryOperator`, `actOnUnaryOperator` and `actOnArraySubscriptExpr` of mercy/src/Sema.cpp,
-- from where the types of the operands are known.
use llvm_mipt.Base.{Bool, true, false, not, ◌&&◌, ◌||◌, if◌then◌else◌}
use llvm_mipt.Mercy.Types.{
  BuiltinKind, bool_kind, Ty, builtin_type, array_type, null_ty, bool_ty, is_integer, is_unsigned,
}
use llvm_mipt.Mercy.Types.Equality.{ty_eq}
use llvm_mipt.Mercy.Ast.{
  BinOpKind, assign_op, lor_op, land_op, or_op, xor_op, and_op, eq_op, ne_op, lt_op, gt_op, le_op,
  ge_op, UnaryOpKind, not_op,
}
use llvm_mipt.Mercy.Sema.State.{
  Outcome, ok, error, fault, ◌>>=◌, require, SemaError, invalid_left_operand, invalid_right_operand,
  operand_types_differ, not_assignable, must_be_booleans, must_be_integers, must_be_unsigned,
  invalid_not_operand, not_an_array, invalid_index, null_pointer,
}

unfoldable pub is_bool : BuiltinKind → Bool
is_bool bool_kind = true
is_bool _ = false

-- The `IsLogicalOp` of the source, and so on.
unfoldable pub is_logical_op : BinOpKind → Bool
is_logical_op lor_op = true
is_logical_op land_op = true
is_logical_op _ = false

unfoldable pub is_bit_op : BinOpKind → Bool
is_bit_op or_op = true
is_bit_op xor_op = true
is_bit_op and_op = true
is_bit_op _ = false

unfoldable pub is_cmp : BinOpKind → Bool
is_cmp eq_op = true
is_cmp ne_op = true
is_cmp lt_op = true
is_cmp gt_op = true
is_cmp le_op = true
is_cmp ge_op = true
is_cmp _ = false

unfoldable pub is_assignment : BinOpKind → Bool
is_assignment assign_op = true
is_assignment _ = false

-- The error if the type is not builtin.
unfoldable pub expect_builtin : Ty → SemaError → Outcome BuiltinKind
expect_builtin (builtin_type k) e = ok k
expect_builtin null_ty e = fault null_pointer
expect_builtin _ e = error e

-- The checks on the kind of both operands.
unfoldable pub check_operands : BinOpKind → Bool → BuiltinKind → Outcome Ty
check_operands op is_lvalue k = do
  _ ← require (not (is_assignment op && not is_lvalue)) not_assignable
  _ ← require (not (is_logical_op op && not (is_bool k))) (must_be_booleans op)
  _ ←
      require (not (not (is_logical_op op) && not (is_assignment op) && not (is_integer k)))
        (must_be_integers op)
  _ ← require (not (is_bit_op op && not (is_unsigned k))) (must_be_unsigned op)
  ok (if is_cmp op || is_logical_op op then bool_ty else builtin_type k)

-- The operator, whether the left operand is an lvalue, and the types of the operands.
unfoldable pub act_on_binary_operator : BinOpKind → Bool → Ty → Ty → Outcome Ty
act_on_binary_operator op is_lvalue l r = do
  k ← expect_builtin l invalid_left_operand
  _ ← expect_builtin r invalid_right_operand
  _ ← require (ty_eq l r) operand_types_differ
  check_operands op is_lvalue k

unfoldable pub act_on_unary_operator : UnaryOpKind → Ty → Outcome Ty
act_on_unary_operator not_op t = do _ ← require (ty_eq t bool_ty) invalid_not_operand; ok t

-- The element type, if the type is an array's.
unfoldable pub elem_ty : Ty → Outcome Ty
elem_ty (array_type t) = ok t
elem_ty null_ty = fault null_pointer
elem_ty _ = error not_an_array

unfoldable pub act_on_array_subscript : Ty → Ty → Outcome Ty
act_on_array_subscript arr idx = do
  t ← elem_ty arr
  k ← expect_builtin idx invalid_index
  _ ← require (is_integer k) invalid_index
  ok t
