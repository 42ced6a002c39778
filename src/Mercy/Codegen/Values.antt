-- ===== src/Mercy/Codegen/Values.antt =====
-- Operators, casts and rvalues in mercy/src/Codegen.cpp, from where the code of the operands is there.
use llvm_mipt.Base.{Bool, true, false, Option, none, some, List, [], ◌∷◌, String, if◌then◌else◌}
use llvm_mipt.Mercy.Types.{
  BuiltinKind, bool_kind, int8_kind, int16_kind, uint8_kind, uint16_kind, Ty, builtin_type,
  array_type, is_signed,
}
use llvm_mipt.Mercy.Ast.{
  BinOpKind, assign_op, lor_op, land_op, or_op, xor_op, and_op, eq_op, ne_op, lt_op, gt_op, le_op,
  ge_op, lshift_op, rshift_op, add_op, sub_op, mul_op, div_op, rem_op,
}
use llvm_mipt.Mercy.Sema.State.{GenericValue, string_value}
use llvm_mipt.Mercy.Codegen.Api.{
  Llvm, Emission, made, refused, ◌>>=◌, deref, failed_assert, null_pointer, BinaryInstr, logical_or,
  logical_and, or_instr, xor_instr, and_instr, icmp_eq, icmp_ne, icmp_sle, icmp_ule, icmp_sge,
  icmp_uge, icmp_slt, icmp_ult, icmp_sgt, icmp_ugt, shl_instr, ashr_instr, lshr_instr, add_instr,
  sub_instr, mul_instr, sdiv_instr, udiv_instr, srem_instr, urem_instr,
}
use llvm_mipt.Mercy.Codegen.Tree.{Typed, get_ty, is_lvalue}
use llvm_mipt.Mercy.Codegen.Types.{builtin_llvm_type, get_llvm_type}

-- `llvm::cast<BuiltinType>`
abbrev pub cast_builtin : Ty → Emission BuiltinKind
cast_builtin (builtin_type k) = made k
cast_builtin _ = refused failed_assert

-- `llvm::cast<ArrayType>` and its element type
abbrev pub cast_elem : Ty → Emission Ty
cast_elem (array_type t) = made t
cast_elem _ = refused failed_assert

abbrev pub by_sign : BuiltinKind → BinaryInstr → BinaryInstr → BinaryInstr
by_sign k s u = if is_signed k then s else u

-- The `switch` of `emitBinaryOperator`, by the kinds of the result and of the operands; `none` is the
-- assignment.
unfoldable pub binary_instr : BinOpKind → BuiltinKind → BuiltinKind → Option BinaryInstr
binary_instr assign_op res k = none
binary_instr lor_op res k = some logical_or
binary_instr land_op res k = some logical_and
binary_instr or_op res k = some or_instr
binary_instr xor_op res k = some xor_instr
binary_instr and_op res k = some and_instr
binary_instr eq_op res k = some icmp_eq
binary_instr ne_op res k = some icmp_ne
binary_instr le_op res k = some (by_sign k icmp_sle icmp_ule)
binary_instr ge_op res k = some (by_sign k icmp_sge icmp_uge)
binary_instr lt_op res k = some (by_sign k icmp_slt icmp_ult)
binary_instr gt_op res k = some (by_sign k icmp_sgt icmp_ugt)
binary_instr lshift_op res k = some shl_instr
binary_instr rshift_op res k = some (by_sign res ashr_instr lshr_instr)
binary_instr add_op res k = some add_instr
binary_instr sub_op res k = some sub_instr
binary_instr mul_op res k = some mul_instr
binary_instr div_op res k = some (by_sign res sdiv_instr udiv_instr)
binary_instr rem_op res k = some (by_sign res srem_instr urem_instr)

abbrev pub is_assign : BinOpKind → Bool
is_assign assign_op = true
is_assign _ = false

-- What `print` widens to 32 bits.
abbrev pub is_small : BuiltinKind → Bool
is_small bool_kind = true
is_small int8_kind = true
is_small int16_kind = true
is_small uint8_kind = true
is_small uint16_kind = true
is_small _ = false

abbrev pub as_string : GenericValue → Emission String
as_string (string_value s) = made s
as_string _ = refused failed_assert

module _ (l : Llvm) where
  open l use {Typ, Value, Code}

  abbrev pub Result : Type 0
  Result = Emission (Option Value × Code)

  abbrev pub value : Value × Code → Result
  value x = made (some x.0, x.1)

  -- `emitAsRValue`, from what the expression's own code gave.
  unfoldable pub as_rvalue : Typed → Option Value × Code → Result
  as_rvalue e x =
      if is_lvalue e
      then (do t ← get_llvm_type l (get_ty e); v ← deref x.0; value (l.create_load t v x.1))
      else made x

  unfoldable pub emit_operator : BinOpKind → Ty → Ty → Option Value → Option Value → Code → Result
  emit_operator op t operand_t x y c = do
    res ← cast_builtin t
    k ← cast_builtin operand_t
    lhs ← deref x
    rhs ← deref y
    elim (binary_instr op res k) [
      | none ↦ made (some rhs, l.create_store rhs lhs c)
      | some i ↦ value (l.create_binary i lhs rhs c)
    ]

  -- `emitArraySubscriptExpr`, from where the array and the index are emitted.
  abbrev pub emit_subscript : Ty → Option Value → Option Value → Code → Result
  emit_subscript t arr idx c = do
    k ← cast_builtin t
    p ← deref arr
    n ← deref idx
    value (l.create_gep (builtin_llvm_type l k) p n c)

  abbrev pub all_values : List (Option Value) → Emission (List Value)
  all_values [] = made []
  all_values (none ∷ xs) = refused null_pointer
  all_values (some v ∷ xs) = all_values xs >>= λ vs. made (v ∷ vs)

  abbrev pub front : List (Option Value) → Emission Value
  front [] = refused null_pointer
  front (x ∷ xs) = deref x
