-- ===== src/Mercy/Sema/State.antt =====
-- The scopes of mercy/src/Sema.h and the state of `Sema`. The chain of scopes is a list, the
-- innermost first. The text of the messages is not modelled.
use llvm_mipt.Base.{
  ℕ, ◌==◌, Bool, true, false, Option, none, some, List, [], ◌∷◌, ◌++◌, String, str_eq,
  if◌then◌else◌,
}
use llvm_mipt.Base.Word.{ℤ}
use llvm_mipt.Mercy.Types.{Ty, Tys}
use llvm_mipt.Mercy.Ast.{BinOpKind, Param, FunctionDomain, Nodes}

-- The calls of `emitError`.
pub data SemaError : Type 0 where
  redefinition undeclared_function undeclared_identifier : String → SemaError
  return_type_not_deduced domain_types_differ mismatching_returns no_main : SemaError
  invalid_left_operand invalid_right_operand operand_types_differ not_assignable : SemaError
  must_be_booleans must_be_integers must_be_unsigned : BinOpKind → SemaError
  invalid_not_operand not_an_array invalid_index : SemaError
  cast_arg_count cast_not_allowed type_as_function callee_not_constexpr : SemaError
  array_needs_argument array_types_differ alloca_arg_count illegal_array_type : SemaError
  extern_arg_count symbol_name_not_constexpr symbol_name_not_string : SemaError
  symbol_type_not_constexpr invalid_symbol_type : SemaError
  too_few_function_type_args function_type_arg_not_type : SemaError

-- What is no message: a null pointer is followed, a parameter that is not there is read, an assert
-- fails, an `llvm_unreachable` is reached.
pub data Fault : Type 0 where
  null_pointer no_param assert_failed unreachable : Fault

pub data Outcome {ℓ} (A : Type ℓ) : Type ℓ where
  ok : A → Outcome A
  error : SemaError → Outcome A
  fault : Fault → Outcome A
  out_of_fuel : Outcome A

infixl 5 ◌>>=◌
abbrev pub ◌>>=◌ {ℓ κ} : {A : Type ℓ} {B : Type κ} → Outcome A → (A → Outcome B) → Outcome B
ok a >>= f = f a
error e >>= f = error e
fault e >>= f = fault e
out_of_fuel >>= f = out_of_fuel

abbrev pub require : Bool → SemaError → Outcome {0} Unit
require true e = ok tt
require false e = error e

abbrev pub check : Bool → Fault → Outcome {0} Unit
check true e = ok tt
check false e = fault e

-- `GenericValue` of mercy/src/GenericValue.h, less the references to declarations, which nothing
-- makes. An extern function is its name and the parts of its type.
pub data GenericValue : Type 0 where
  no_value : GenericValue
  int_value : ℤ → GenericValue
  string_value : String → GenericValue
  extern_func_ref : String → Ty → Tys → GenericValue
  type_value : Ty → GenericValue

unfoldable pub is_empty : GenericValue → Bool
is_empty no_value = true
is_empty _ = false

unfoldable pub is_string : GenericValue → Bool
is_string (string_value s) = true
is_string _ = false

-- A cast to another type than the value's is a failed assert.
unfoldable pub as_type : GenericValue → Outcome Ty
as_type (type_value t) = ok t
as_type _ = fault assert_failed

unfoldable pub as_string : GenericValue → Outcome String
as_string (string_value s) = ok s
as_string _ = fault assert_failed

-- A variable or parameter by the type that it has now, or a function by its place in
-- `FunctionDecls`.
pub data Decl : Type 0 where
  object : Ty → Decl
  function : ℕ → Decl

-- The name of an instance's scope is the function's name and the number of the instance; the
-- global scope has none.
pub record Scope : Type 0 where
  pub name : Option (String × ℕ)
  pub decls : List (String × Decl)

unfoldable pub find_in : String → List (String × Decl) → Option Decl
find_in id [] = none
find_in id ((k, d) ∷ ds) = if str_eq k id then some d else find_in id ds

-- `Scope::find`
unfoldable pub find : String → Scope → Option Decl
find id s = find_in id s.decls

-- `Scope::insert`, of a name that the scope does not have: the callers have looked.
unfoldable pub insert : String → Decl → Scope → Scope
insert id d s = record s { decls = (id, d) ∷ s.decls }

abbrev pub is_function : ℕ → Decl → Bool
is_function fd (object t) = false
is_function fd (function n) = n == fd

unfoldable pub contains_in : ℕ → List (String × Decl) → Bool
contains_in fd [] = false
contains_in fd ((k, d) ∷ ds) = if is_function fd d then true else contains_in fd ds

-- `Scope::contains`, of a function.
unfoldable pub contains : ℕ → Scope → Bool
contains fd s = contains_in fd s.decls

unfoldable pub find_decl_recursive : String → List Scope → Option Decl
find_decl_recursive id [] = none
find_decl_recursive id (s ∷ ss) = elim (find id s) [
  | none ↦ find_decl_recursive id ss
  | some d ↦ some d
]

-- The chain of scopes from the one that holds the function outwards.
unfoldable pub find_scope_of_decl : ℕ → List Scope → List Scope
find_scope_of_decl fd [] = []
find_scope_of_decl fd (s ∷ ss) = if contains fd s then s ∷ ss else find_scope_of_decl fd ss

-- The names from the global scope inwards.
unfoldable pub make_full_scope_name : List Scope → List (Option (String × ℕ))
make_full_scope_name [] = []
make_full_scope_name (s ∷ ss) = make_full_scope_name ss ++ s.name ∷ []

pub record Fragment : Type 0 where
  pub params : List Param
  pub body : Nodes
  pub domain : FunctionDomain

pub record FunctionDecl : Type 0 where
  pub id : String
  pub fragments : List Fragment

-- An instance of the function, with the parameter types and the return type of its first fragment.
-- `MangledId` is the path of scopes, the function's name and the number.
pub record TemplateInstance : Type 0 where
  pub decl : ℕ
  pub path : List (Option (String × ℕ))
  pub number : ℕ
  pub param_tys : List Ty
  pub return_ty : Ty

pub record State : Type 0 where
  pub scopes : List Scope
  pub function_decls : List FunctionDecl
  pub instances : List TemplateInstance
  pub extern_functions : List (String × Ty × Tys)

-- The current scope is the first.
abbrev pub on_top : (Scope → Scope) → List Scope → List Scope
on_top f [] = []
on_top f (s ∷ ss) = f s ∷ ss

abbrev pub find_on_top : String → List Scope → Option Decl
find_on_top id [] = none
find_on_top id (s ∷ ss) = find id s

abbrev pub insert_on_top : String → Decl → State → State
insert_on_top id d st = record st { scopes = on_top (insert id d) st.scopes }

abbrev pub insert_new : String → Decl → Option Decl → State → Outcome State
insert_new id d (some prev) st = error (redefinition id)
insert_new id d none st = ok (insert_on_top id d st)

unfoldable pub insert_decl : String → Decl → State → Outcome State
insert_decl id d st = insert_new id d (find_on_top id st.scopes) st

-- The type of a declaration follows its initializer: the entry in the scope is replaced.
unfoldable pub retype_in : String → Ty → List (String × Decl) → List (String × Decl)
retype_in id t [] = []
retype_in id t ((k, d) ∷ ds) =
    if str_eq k id then (k, object t) ∷ ds else (k, d) ∷ retype_in id t ds

abbrev pub retype : String → Ty → State → State
retype id t st = record st {
  scopes = on_top (λ s. record s { decls = retype_in id t s.decls }) st.scopes;
}
