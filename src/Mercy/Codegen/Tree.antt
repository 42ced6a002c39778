-- ===== src/Mercy/Codegen/Tree.antt =====
-- What mercy/src/Codegen.cpp reads of the nodes of mercy/src/AST.h, after the semantic analysis: the
-- tree with the types, constant values, declarations and instances that it has written there.
use llvm_mipt.Base.{ℕ, Bool, true, false, Option, String}
use llvm_mipt.Base.Word.{ℤ}
use llvm_mipt.Mercy.Types.{Ty, Tys, meta_type, int_ty, string_ty}
use llvm_mipt.Mercy.Ast.{BinOpKind, UnaryOpKind}
use llvm_mipt.Mercy.Sema.State.{GenericValue, no_value, int_value, string_value, type_value}

-- A function instance: its id, and the types of its declaration.
pub record Instance : Type 0 where
  pub id : String
  pub return_ty : Ty
  pub param_tys : Tys

-- An identifier has its declaration, if any, by a number. A call has its type, its constant value,
-- its callee, its arguments and `getCalleeFunc`.
mutual
  pub data Typed : Type 0 where
    integral : ℤ → Typed
    text : String → Typed
    type_expr : Ty → Typed
    binary : BinOpKind → Ty → Typed → Typed → Typed
    unary : UnaryOpKind → Ty → Typed → Typed
    named : String → Ty → Option ℕ → Typed
    call : Ty → GenericValue → Typed → Args → Option Instance → Typed
    subscript : Ty → Typed → Typed → Typed

  pub data Args : Type 0 where
    no_args : Args
    more_args : Typed → Args → Args

-- `Expression::getType`
unfoldable pub get_ty : Typed → Ty
get_ty (integral n) = int_ty
get_ty (text s) = string_ty
get_ty (type_expr t) = meta_type
get_ty (binary op t l r) = t
get_ty (unary op t e) = t
get_ty (named name t d) = t
get_ty (call t v f args i) = t
get_ty (subscript t a i) = t

-- `Expression::getConstexprValue`
unfoldable pub get_constexpr : Typed → GenericValue
get_constexpr (integral n) = int_value n
get_constexpr (text s) = string_value s
get_constexpr (type_expr t) = type_value t
get_constexpr (call t v f args i) = v
get_constexpr _ = no_value

-- `Expression::isLValue`
unfoldable pub is_lvalue : Typed → Bool
is_lvalue (named name t d) = true
is_lvalue (subscript t a i) = true
is_lvalue _ = false
