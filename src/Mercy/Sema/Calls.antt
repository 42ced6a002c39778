-- ===== src/Mercy/Sema/Calls.antt =====
-- `actOnFunctionCall` of mercy/src/Sema.cpp: the casts and the built-in functions, of arguments
-- that have been analysed.
use llvm_mipt.Base.{Bool, true, not, ◌&&◌, List, [], ◌∷◌, ◌++◌, String}
use llvm_mipt.Mercy.Types.{
  BuiltinKind, Ty, Tys, nil, cons, builtin_type, array_type, function_type, meta_type, null_ty,
  void_ty, is_integer,
}
use llvm_mipt.Mercy.Types.Equality.{ty_eq}
use llvm_mipt.Mercy.Ast.{Expr, type_expr}
use llvm_mipt.Mercy.Sema.State.{
  Outcome, ok, error, fault, ◌>>=◌, require, State, GenericValue, no_value, type_value,
  extern_func_ref, is_empty, is_string, as_type, as_string, null_pointer, assert_failed,
  unreachable, cast_arg_count, cast_not_allowed, type_as_function, array_needs_argument,
  array_types_differ, alloca_arg_count, illegal_array_type, extern_arg_count,
  symbol_name_not_constexpr, symbol_name_not_string, symbol_type_not_constexpr, invalid_symbol_type,
  too_few_function_type_args, function_type_arg_not_type, callee_not_constexpr,
}
use llvm_mipt.Mercy.Sema.Operators.{expect_builtin}

-- What `Sema` sets in an expression.
pub record Info : Type 0 where
  pub ty : Ty
  pub value : GenericValue

-- An argument and what was set in it.
pub record Arg : Type 0 where
  pub expr : Expr
  pub info : Info

abbrev pub typed : Ty → Info
typed t = record { ty = t; value = no_value }

unfoldable pub arg_tys : List Arg → List Ty
arg_tys [] = []
arg_tys (a ∷ as_) = a.info.ty ∷ arg_tys as_

-- The `dyn_cast` of the argument's type to `BuiltinType` is null if it is another type, and then
-- followed.
unfoldable pub cast_arg : Ty → Outcome BuiltinKind
cast_arg (builtin_type k) = ok k
cast_arg _ = fault null_pointer

unfoldable pub cast_to : BuiltinKind → List Arg → Outcome Info
cast_to k (a ∷ []) = do
  j ← cast_arg a.info.ty
  _ ← require (is_integer j && is_integer k) cast_not_allowed
  ok (typed (builtin_type k))
cast_to k _ = error cast_arg_count

-- A call whose callee is a `TypeExpr`.
unfoldable pub call_type : Ty → List Arg → Outcome Info
call_type (builtin_type k) args = cast_to k args
call_type null_ty args = fault null_pointer
call_type _ args = error type_as_function

unfoldable pub all_same : Ty → List Ty → Bool
all_same t [] = true
all_same t (u ∷ us) = ty_eq u t && all_same t us

unfoldable pub call_array : List Ty → Outcome Info
call_array [] = error array_needs_argument
call_array (t ∷ ts) = do
  _ ← require (all_same t (t ∷ ts)) array_types_differ
  ok (typed (array_type t))

-- The value of a `TypeExpr`; no other expression is allowed there.
unfoldable pub direct_type : Expr → Outcome Ty
direct_type (type_expr t) = ok t
direct_type _ = fault assert_failed

unfoldable pub call_alloca : List Arg → Outcome Info
call_alloca (a ∷ n ∷ []) = do
  t ← direct_type a.expr
  _ ← expect_builtin t illegal_array_type
  _ ← require (not (ty_eq t void_ty)) illegal_array_type
  ok (typed (array_type t))
call_alloca _ = error alloca_arg_count

-- The symbol of a type; a function is noted in `ExternFunctions`.
unfoldable pub extern_symbol : String → Ty → State → Outcome (Info × State)
extern_symbol name (builtin_type k) st = ok (typed (builtin_type k), st)
extern_symbol name (function_type r ps) st = ok (
  record { ty = function_type r ps; value = extern_func_ref name r ps },
  record st { extern_functions = st.extern_functions ++ (name, r, ps) ∷ [] },
)
extern_symbol name null_ty st = fault null_pointer
extern_symbol name _ st = error invalid_symbol_type

unfoldable pub call_extern : List Arg → State → Outcome (Info × State)
call_extern (s ∷ t ∷ []) st = do
  _ ← require (not (is_empty s.info.value)) symbol_name_not_constexpr
  _ ← require (is_string s.info.value) symbol_name_not_string
  _ ← require (not (is_empty t.info.value)) symbol_type_not_constexpr
  ty ← as_type t.info.value
  name ← as_string s.info.value
  extern_symbol name ty st
call_extern _ st = error extern_arg_count

unfoldable pub expect_meta : Ty → Outcome {0} Unit
expect_meta meta_type = ok tt
expect_meta null_ty = fault null_pointer
expect_meta _ = error function_type_arg_not_type

unfoldable pub all_meta : List Arg → Outcome {0} Unit
all_meta [] = ok tt
all_meta (a ∷ rest) = expect_meta a.info.ty >>= λ u. all_meta rest

unfoldable pub values : List Arg → Outcome Tys
values [] = ok nil
values (a ∷ rest) = do t ← as_type a.info.value; ts ← values rest; ok (cons t ts)

abbrev pub function_type_of : Tys → Outcome Info
function_type_of nil = error too_few_function_type_args
function_type_of (cons r ps) = ok (record { ty = null_ty; value = type_value (function_type r ps) })

-- The call keeps its null type; only its value is set.
unfoldable pub call_function_type : List Arg → Outcome Info
call_function_type [] = error too_few_function_type_args
call_function_type (a ∷ rest) = do
  _ ← all_meta (a ∷ rest)
  ts ← values (a ∷ rest)
  function_type_of ts

-- A call whose callee is an expression that has been analysed.
unfoldable pub call_value : GenericValue → Outcome Info
call_value (extern_func_ref name r ps) = ok (typed r)
call_value no_value = error callee_not_constexpr
call_value _ = fault unreachable
