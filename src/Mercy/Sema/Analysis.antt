-- ===== src/Mercy/Sema/Analysis.antt =====
-- The walk of `Sema` over the tree, in mercy/src/Sema.cpp. What a call instantiates is an argument
-- of the walk; `Instances` ties the knot on fuel.
use llvm_mipt.Base.{
  ℕ, Bool, true, false, Option, none, some, List, [], ◌∷◌, ◌++◌, String, str_eq, length, get_elem?,
  set, if◌then◌else◌,
}
use llvm_mipt.Mercy.Types.{
  Ty, Tys, nil, cons, function_type, meta_type, null_ty, void_ty, int_ty, string_ty,
}
use llvm_mipt.Mercy.Types.Equality.{ty_eq}
use llvm_mipt.Mercy.Ast.{
  Expr, integral_literal, string_literal, type_expr, binary_operator, unary_operator, identifier,
  function_call, array_subscript_expr, Exprs, no_exprs, more_exprs, Param, Node, expression,
  variable_decl, return_stmt, function_fragment, Nodes, no_nodes, more_nodes, is_lvalue,
}
use llvm_mipt.Mercy.Sema.State.{
  Outcome, ok, error, fault, ◌>>=◌, require, State, int_value, string_value, type_value, Decl,
  object, function, Fragment, FunctionDecl, insert_decl, insert_on_top, retype, find_decl_recursive,
  find_on_top, redefinition, undeclared_function, undeclared_identifier, mismatching_returns,
  assert_failed,
}
use llvm_mipt.Mercy.Sema.Operators.{
  act_on_binary_operator, act_on_unary_operator, act_on_array_subscript,
}
use llvm_mipt.Mercy.Sema.Calls.{
  Info, Arg, typed, arg_tys, call_type, call_array, call_alloca, call_extern, call_function_type,
  call_value,
}

-- The instance of a function for the types of the arguments: its return type.
abbrev pub Instantiate : Type 0
Instantiate = ℕ → List Ty → State → Outcome (Ty × State)

unfoldable pub nulls : List Param → Tys
nulls [] = nil
nulls (p ∷ ps) = cons null_ty (nulls ps)

-- `FunctionDecl::getType`, of the declaration in the scope, whose types are never set.
abbrev pub fragments_ty : List Fragment → Ty
fragments_ty [] = function_type null_ty nil
fragments_ty (f ∷ fs) = function_type null_ty (nulls f.params)

unfoldable pub decl_ty : Decl → State → Outcome Ty
decl_ty (object t) st = ok t
decl_ty (function fd) st = elim (get_elem? st.function_decls fd) [
  | none ↦ fault assert_failed
  | some d ↦ ok (fragments_ty d.fragments)
]

abbrev pub identified : String → Option Decl → State → Outcome (Info × State)
identified name none st = error (undeclared_identifier name)
identified name (some d) st = decl_ty d st >>= λ t. ok (typed t, st)

unfoldable pub act_on_identifier : String → State → Outcome (Info × State)
act_on_identifier name st = identified name (find_decl_recursive name st.scopes) st

abbrev pub keep : State → Outcome Info → Outcome (Info × State)
keep st o = o >>= λ i. ok (i, st)

abbrev pub called : Instantiate → String → Option Decl → List Ty → State → Outcome (Info × State)
called inst name none tys st = error (undeclared_function name)
called inst name (some (object t)) tys st = fault assert_failed
called inst name (some (function fd)) tys st = inst fd tys st >>= λ r. ok (typed r.0, r.1)

unfoldable pub call_user : Instantiate → String → List Arg → State → Outcome (Info × State)
call_user inst name args st =
    called inst name (find_decl_recursive name st.scopes) (arg_tys args) st

unfoldable pub call_named : Instantiate → String → List Arg → State → Outcome (Info × State)
call_named inst name args st =
    if str_eq name "array"
    then keep st (call_array (arg_tys args))
    else if str_eq name "alloca"
    then keep st (call_alloca args)
    else if str_eq name "extern"
    then call_extern args st
    else if str_eq name "function_type"
    then keep st (call_function_type args)
    else if str_eq name "print"
    then ok (typed void_ty, st)
    else call_user inst name args st

-- The callee is analysed only if it is neither a type nor a name.
unfoldable pub call_on :
    Instantiate
    → Expr
    → List Arg
    → (State → Outcome (Info × State))
    → State
    → Outcome (Info × State)
call_on inst (type_expr t) args sema_callee st = keep st (call_type t args)
call_on inst (identifier name) args sema_callee st = call_named inst name args st
call_on inst _ args sema_callee st = sema_callee st >>= λ r. keep r.1 (call_value (r.0).value)

unfoldable mutual
  -- `Expression::sema`, with what it sets in the expression.
  pub sema_expr : Instantiate → Expr → State → Outcome (Info × State)
  sema_expr inst (integral_literal v) st = ok (record { ty = int_ty; value = int_value v }, st)
  sema_expr inst (string_literal s) st = ok (record { ty = string_ty; value = string_value s }, st)
  sema_expr inst (type_expr t) st = ok (record { ty = meta_type; value = type_value t }, st)
  sema_expr inst (binary_operator op l r) st = do
    x ← sema_expr inst l st
    y ← sema_expr inst r x.1
    keep y.1 (act_on_binary_operator op (is_lvalue l) (x.0).ty (y.0).ty >>= λ t. ok (typed t))
  sema_expr inst (unary_operator op e) st = do
    x ← sema_expr inst e st
    keep x.1 (act_on_unary_operator op (x.0).ty >>= λ t. ok (typed t))
  sema_expr inst (identifier name) st = act_on_identifier name st
  sema_expr inst (function_call callee args) st = do
    xs ← sema_args inst args st
    call_on inst callee xs.0 (λ s. sema_expr inst callee s) xs.1
  sema_expr inst (array_subscript_expr a i) st = do
    x ← sema_expr inst a st
    y ← sema_expr inst i x.1
    keep y.1 (act_on_array_subscript (x.0).ty (y.0).ty >>= λ t. ok (typed t))

  pub sema_args : Instantiate → Exprs → State → Outcome (List Arg × State)
  sema_args inst no_exprs st = ok ([], st)
  sema_args inst (more_exprs e es) st = do
    x ← sema_expr inst e st
    xs ← sema_args inst es x.1
    ok (record { expr = e; info = x.0 } ∷ xs.0, xs.1)

-- The type that the parser has set in an expression.
abbrev pub type_before : Expr → Ty
type_before (integral_literal v) = int_ty
type_before (string_literal s) = string_ty
type_before (type_expr t) = meta_type
type_before _ = null_ty

-- The name is declared before its initializer is analysed.
unfoldable pub act_on_variable_decl : Instantiate → String → Expr → State → Outcome State
act_on_variable_decl inst id init st = do
  st₁ ← insert_decl id (object (type_before init)) st
  x ← sema_expr inst init st₁
  ok (retype id (x.0).ty x.1)

abbrev pub append_fragment : Fragment → ℕ → Option FunctionDecl → State → Outcome State
append_fragment f fd none st = fault assert_failed
append_fragment f fd (some d) st = ok (record st {
  function_decls = set st.function_decls fd (record d { fragments = d.fragments ++ f ∷ [] });
})

abbrev pub define : String → Fragment → Option Decl → State → Outcome State
define id f (some (function fd)) st = append_fragment f fd (get_elem? st.function_decls fd) st
define id f (some (object t)) st = error (redefinition id)
define id f none st =
    let d : FunctionDecl = record { id = id; fragments = f ∷ [] } in
    let st₁ = insert_on_top id (function (length st.function_decls)) st in
    ok (record st₁ { function_decls = st.function_decls ++ d ∷ [] })

-- Another domain of a function of the current scope, or its first definition. The source keeps clones
-- of the nodes, which have the same parts.
unfoldable pub act_on_function_fragment : String → Fragment → State → Outcome State
act_on_function_fragment id f st = define id f (find_on_top id st.scopes) st

-- A statement or a definition; the answer is the type that a `ReturnStmt` returns.
unfoldable pub sema_node : Instantiate → Node → State → Outcome (Option Ty × State)
sema_node inst (expression e) st = sema_expr inst e st >>= λ x. ok (none, x.1)
sema_node inst (variable_decl id init is_ref) st =
    act_on_variable_decl inst id init st >>= λ s. ok (none, s)
sema_node inst (return_stmt e) st = sema_expr inst e st >>= λ x. ok (some (x.0).ty, x.1)
sema_node inst (function_fragment id params body domain) st =
    act_on_function_fragment id (record { params = params; body = body; domain = domain }) st
    >>= λ s. ok (none, s)

abbrev add_return : Option Ty → List Ty → List Ty
add_return none ts = ts
add_return (some t) ts = t ∷ ts

-- The nodes in their order, with the types of the return statements among them.
unfoldable pub sema_nodes : Instantiate → Nodes → State → Outcome (List Ty × State)
sema_nodes inst no_nodes st = ok ([], st)
sema_nodes inst (more_nodes n ns) st = do
  x ← sema_node inst n st
  xs ← sema_nodes inst ns x.1
  ok (add_return x.0 xs.0, xs.1)

unfoldable pub has_return_stmt : Nodes → Bool
has_return_stmt no_nodes = false
has_return_stmt (more_nodes (return_stmt e) ns) = true
has_return_stmt (more_nodes _ ns) = has_return_stmt ns

abbrev pub is_null : Ty → Bool
is_null null_ty = true
is_null _ = false

-- The one type that all return statements have; a null type does not count as seen.
unfoldable pub join_returns : Ty → List Ty → Outcome Ty
join_returns ret [] = ok ret
join_returns ret (t ∷ ts) = do
  _ ← require (if is_null ret then true else ty_eq ret t) mismatching_returns
  join_returns (if is_null ret then t else ret) ts
