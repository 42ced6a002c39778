-- ===== src/Mercy/Codegen/Calls.antt =====
-- `emitFunctionCall` of mercy/src/Codegen.cpp, from where the arguments are emitted.
use llvm_mipt.Base.{
  ℕ, ◌+◌, Bool, true, false, not, Option, none, some, List, [], ◌∷◌, length, String, str_eq,
  if◌then◌else◌,
}
use Prim.Native.String.{◌++◌ as str_append}
use llvm_mipt.Mercy.Types.{BuiltinKind, Ty, builtin_type, function_type, null_ty, is_signed}
use llvm_mipt.Mercy.Sema.State.{GenericValue, no_value, extern_func_ref, is_empty}
use llvm_mipt.Mercy.Codegen.Api.{
  Llvm, Emission, made, refused, ◌>>=◌, deref, failed_assert, unreachable, null_pointer,
  cannot_print,
}
use llvm_mipt.Mercy.Codegen.Tree.{
  Typed, type_expr, named, Args, no_args, more_args, Instance, get_ty, get_constexpr,
}
use llvm_mipt.Mercy.Codegen.Types.{builtin_llvm_type, get_llvm_type, get_llvm_types, print_format}
use llvm_mipt.Mercy.Codegen.Values.{
  cast_builtin, cast_elem, is_small, as_string, Result, value, all_values, front,
}

module _ (l : Llvm) where
  open l use {Typ, Value, Code}

  -- The elements of an `array`, stored one after the other.
  unfoldable pub store_elems : Typ → Value → ℕ → List (Option Value) → Code → Emission Code
  store_elems t arr i [] c = made c
  store_elems t arr i (x ∷ xs) c = do
    let ptr = l.create_const_gep t arr i c
    v ← deref x
    store_elems t arr (i + 1) xs (l.create_store v ptr.0 ptr.1)

  unfoldable pub call_array : Ty → List (Option Value) → Code → Result l
  call_array t args c = do
    elem ← cast_elem t
    k ← cast_builtin elem
    let ty = builtin_llvm_type l k
    let arr = l.create_alloca ty (some (l.get_int32 (length args))) "anon_array" c
    d ← store_elems ty arr.0 0 args arr.1
    made (some arr.0, d)

  abbrev pub second : List (Option Value) → Emission (Option Value)
  second (x ∷ y ∷ xs) = made y
  second _ = refused null_pointer

  unfoldable pub call_alloca : Ty → List (Option Value) → Code → Result l
  call_alloca t args c = do
    elem ← cast_elem t
    ty ← get_llvm_type l elem
    size ← second args
    value l (l.create_alloca ty size "anon_array" c)

  abbrev pub first_arg : Args → Emission Typed
  first_arg no_args = refused null_pointer
  first_arg (more_args e es) = made e

  -- `cast<llvm::FunctionType>` of the type of the symbol.
  abbrev pub expect_function_type : Ty → Emission {0} Unit
  expect_function_type (function_type r ps) = made tt
  expect_function_type _ = refused failed_assert

  abbrev pub extern_function : Ty → String → Typ → Code → Result l
  extern_function t name ty c =
      expect_function_type t >>= λ _. made (none, (l.get_or_insert_function name ty c).1)

  abbrev pub extern_variable : String → Typ → Code → Result l
  extern_variable name ty c =
      let at = l.get_or_insert_global name ty c in value l (l.create_load ty at.0 at.1)

  abbrev pub extern_symbol : Bool → Ty → String → Typ → Code → Result l
  extern_symbol true t name ty c = extern_function t name ty c
  extern_symbol false t name ty c = extern_variable name ty c

  unfoldable pub call_extern : Ty → GenericValue → Args → Code → Result l
  call_extern t v args c = do
    e ← first_arg args
    name ← as_string (get_constexpr e)
    ty ← get_llvm_type l t
    extern_symbol (not (is_empty v)) t name ty c

  -- `getOrInsertPrintFunc`
  unfoldable pub get_or_insert_print_func : Typ → String → String → Code → Value × Code
  get_or_insert_print_func t postfix fmt c =
      let name : String = str_append "__print_" postfix in
      let printf =
        l.get_or_insert_function "printf"
          (l.get_function_ty (l.get_int_ty 32) (l.get_pointer_to (l.get_int_ty 8) ∷ []) true) c in
      let callee =
        l.get_or_insert_function name (l.get_function_ty l.get_void_ty (t ∷ []) false) printf.1 in
      if l.is_empty callee.0 callee.1
      then (
        callee.0,
        l.fill_block callee.0
            (λ d.
              let s = l.create_global_string_ptr fmt (str_append name "_fmt") d in
              (l.create_ret_void
                (l.create_call printf.0 (s.0 ∷ l.get_arg callee.0 0 ∷ []) s.1).1).1)
            callee.1,
      )
      else callee

  abbrev pub widen : BuiltinKind → Value → Code → Value × Code
  widen k v c = if is_small k then l.create_int_cast v (l.get_int_ty 32) (is_signed k) c else (v, c)

  abbrev pub one_arg : Args → Emission Typed
  one_arg (more_args e no_args) = made e
  one_arg _ = refused failed_assert

  abbrev pub print_kind : Ty → Emission BuiltinKind
  print_kind (builtin_type k) = made k
  print_kind null_ty = refused failed_assert
  print_kind _ = refused cannot_print

  unfoldable pub call_print : Args → List (Option Value) → Code → Result l
  call_print args vs c = do
    e ← one_arg args
    k ← print_kind (get_ty e)
    v ← front l vs
    let w = widen k v c
    f ← print_format l k
    let callee = get_or_insert_print_func f.0 f.1 f.2 w.1
    value l (l.create_call callee.0 (w.0 ∷ []) callee.1)

  -- `getOrInsertInstanceDecl`
  unfoldable pub get_or_insert_instance_decl : Instance → Code → Emission (Value × Code)
  get_or_insert_instance_decl i c = elim (l.get_function i.id c) [
    | some f ↦ made (f, c)
    | none ↦ do
      ps ← get_llvm_types l i.param_tys
      r ← get_llvm_type l i.return_ty
      made (l.get_or_insert_function i.id (l.get_function_ty r ps false) c)
  ]

  unfoldable pub call_user : Option Instance → List (Option Value) → Code → Result l
  call_user i vs c = do
    inst ← deref i
    f ← get_or_insert_instance_decl inst c
    args ← all_values l vs
    value l (l.create_call f.0 args f.1)

  -- The call of a name: `array` and the other built-in functions, or an instance.
  unfoldable pub call_name :
      String → Ty → GenericValue → Args → Option Instance → List (Option Value) → Code → Result l
  call_name name t v args i vs c =
      if str_eq name "array"
      then call_array t vs c
      else if str_eq name "alloca"
      then call_alloca t vs c
      else if str_eq name "extern"
      then call_extern t v args c
      else if str_eq name "function_type"
      then made (none, c)
      else if str_eq name "print"
      then call_print args vs c
      else call_user i vs c

  -- A conversion to a builtin type.
  unfoldable pub call_type : Ty → List (Option Value) → Code → Result l
  call_type t vs c = do
    k ← cast_builtin t
    v ← front l vs
    value l (l.create_int_cast v (builtin_llvm_type l k) (is_signed k) c)

  -- A call of what is no name: of a reference to an extern function.
  unfoldable pub call_constexpr : GenericValue → List (Option Value) → Code → Result l
  call_constexpr (extern_func_ref name r ps) vs c = do
    ty ← get_llvm_type l (function_type r ps)
    args ← all_values l vs
    let f = l.get_or_insert_function name ty c
    value l (l.create_call f.0 args f.1)
  call_constexpr no_value vs c = refused failed_assert
  call_constexpr _ vs c = refused unreachable

  -- `emitFunctionCall`, from where the arguments are emitted.
  unfoldable pub emit_call :
      Typed → Ty → GenericValue → Args → Option Instance → List (Option Value) → Code → Result l
  emit_call (type_expr t) ty v args i vs c = call_type t vs c
  emit_call (named name t d) ty v args i vs c = call_name name ty v args i vs c
  emit_call f ty v args i vs c = call_constexpr (get_constexpr f) vs c
