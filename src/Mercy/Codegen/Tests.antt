-- ===== src/Mercy/Codegen/Tests.antt =====
-- Code generation at a concrete input.
mod Builder
use llvm_mipt.Base.{ℕ, zero, suc, ◌≡◌, sym, refl, ap, false, Option, some, [], ◌∷◌}
use llvm_mipt.Base.Word.{pos}
use llvm_mipt.Mercy.Types.{
  int32_kind, Ty, array_type, int_ty, bool_ty, cons, nil, is_integer, is_signed, is_unsigned,
}
use llvm_mipt.Mercy.Types.Equality.{ty_eq}
use llvm_mipt.Mercy.Ast.{assign_op, add_op, gt_op}
use llvm_mipt.Mercy.Sema.Operators.{
  act_on_binary_operator, act_on_array_subscript, elem_ty, expect_builtin, check_operands,
  is_assignment, is_logical_op, is_bit_op, is_cmp, is_bool,
}
use llvm_mipt.Mercy.Codegen.Tree.{Typed, integral, binary, named, subscript, get_ty, is_lvalue}
use llvm_mipt.Mercy.Codegen.Types.{builtin_llvm_type, get_llvm_type}
use llvm_mipt.Mercy.Codegen.Emit.{emit}
use llvm_mipt.Mercy.Codegen.Typing.{HasTypes}
use llvm_mipt.Mercy.Codegen.Functions.{TypedParam, TypedFunction, on_custom, var_stmt, ret_stmt}
use llvm_mipt.Mercy.Codegen.Typed.{Gives, Declared, emit-Gives}
use Builder.{TestType, int, pointer, empty_code, typed_values, documented}

abbrev decls : ℕ → Option Ty
decls zero = some (array_type int_ty)
decls (suc i) = some int_ty

abbrev addresses : ℕ → Option TestType
addresses zero = some (pointer (pointer (int 32)))
addresses (suc i) = some (pointer (int 32))

-- `xs[0] = n + 1`
abbrev assignment : Typed
assignment =
    binary assign_op int_ty
      (subscript int_ty (named "xs" (array_type int_ty) (some 0)) (integral (pos 0)))
      (binary add_op int_ty (named "n" int_ty (some 1)) (integral (pos 1)))

declared : Declared typed_values documented decls addresses
unfolding get_llvm_type builtin_llvm_type
declared zero t e full =
    let same : array_type int_ty ≡ t = cc in
    (_, pointer (int 32), refl, ap (get_llvm_type typed_values) (sym same), refl)
declared (suc i) t e full =
    let same : int_ty ≡ t = cc in
    (_, int 32, refl, ap (get_llvm_type typed_values) (sym same), refl)

assignment-HasTypes : HasTypes decls assignment
unfolding HasTypes get_ty is_lvalue act_on_binary_operator act_on_array_subscript elem_ty
    expect_builtin check_operands is_integer is_signed is_unsigned ty_eq is_assignment is_logical_op
    is_bit_op is_cmp is_bool
assignment-HasTypes =
    (((0, refl, refl, refl), tt, refl, int32_kind, refl), ((1, refl, refl, refl), tt, refl), refl)

emit-Gives_example :
    Gives typed_values documented false int_ty (emit typed_values addresses assignment empty_code)
unfolding get_ty is_lvalue
emit-Gives_example =
    emit-Gives typed_values documented decls addresses declared assignment assignment-HasTypes
      empty_code tt

abbrev param_of : ℕ → TypedParam
param_of k = record { id = "n"; ty = int_ty; decl = k }

-- `n + 1` where `n > 0`, and nowhere else.
abbrev partial : TypedFunction
partial = record {
  instance_of = record { id = "next"; return_ty = int_ty; param_tys = cons int_ty nil };
  front = record {
    params = param_of 5 ∷ [];
    domain = on_custom (binary gt_op bool_ty (named "n" int_ty (some 5)) (integral (pos 0)));
    body =
        var_stmt false "m" 6 (binary add_op int_ty (named "n" int_ty (some 5)) (integral (pos 1)))
        ∷ ret_stmt int_ty (named "m" int_ty (some 6))
        ∷ [];
  };
  more = [];
}
