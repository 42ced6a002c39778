-- ===== src/Mercy/Sema/Instances.antt =====
-- `getOrCreateFunctionInstance`, `actOnFunctionBody`, `createEntryPoint` and `run` of
-- mercy/src/Sema.cpp.
use llvm_mipt.Base.{
  ℕ, zero, suc, ◌==◌, Bool, true, false, not, ◌&&◌, Option, none, some, List, [], ◌∷◌, ◌++◌, String,
  str_eq, length, get_elem?, set, if◌then◌else◌,
}
use llvm_mipt.Mercy.Types.{Ty, null_ty, void_ty}
use llvm_mipt.Mercy.Types.Equality.{ty_eq}
use llvm_mipt.Mercy.Ast.{Param, FunctionDomain, global, otherwise, custom, Nodes}
use llvm_mipt.Mercy.Sema.State.{
  Outcome, ok, error, fault, out_of_fuel, ◌>>=◌, require, check, State, object, Scope, Fragment,
  FunctionDecl, TemplateInstance, contains, insert_decl, find_scope_of_decl, make_full_scope_name,
  return_type_not_deduced, domain_types_differ, no_main, no_param, assert_failed,
}
use llvm_mipt.Mercy.Sema.Analysis.{
  Instantiate, sema_expr, sema_nodes, has_return_stmt, is_null, join_returns,
}

unfoldable pub equal : List Ty → List Ty → Bool
equal [] [] = true
equal (t ∷ ts) (u ∷ us) = ty_eq t u && equal ts us
equal _ _ = false

unfoldable pub find_instance : ℕ → List Ty → List TemplateInstance → Option TemplateInstance
find_instance fd tys [] = none
find_instance fd tys (i ∷ is) =
    if (i.decl == fd) && equal i.param_tys tys then some i else find_instance fd tys is

-- `Instances.size()` of the function.
unfoldable pub count_instances : ℕ → List TemplateInstance → ℕ
count_instances fd [] = 0
count_instances fd (i ∷ is) = let n = count_instances fd is in if i.decl == fd then suc n else n

-- The parameters with their types; one without an argument keeps its null type.
unfoldable pub set_types : List Param → List Ty → Outcome (List (String × Ty))
set_types [] [] = ok []
set_types [] (t ∷ ts) = fault no_param
set_types (p ∷ ps) [] = set_types ps [] >>= λ qs. ok ((p.id, null_ty) ∷ qs)
set_types (p ∷ ps) (t ∷ ts) = set_types ps ts >>= λ qs. ok ((p.id, t) ∷ qs)

abbrev pub types_of : List (String × Ty) → List Ty
types_of [] = []
types_of ((id, t) ∷ ps) = t ∷ types_of ps

abbrev pub first_param_tys : List Fragment → List Ty → Outcome (List Ty)
first_param_tys [] tys = fault assert_failed
first_param_tys (f ∷ fs) tys = set_types f.params tys >>= λ ps. ok (types_of ps)

unfoldable pub act_on_params : List (String × Ty) → State → Outcome State
act_on_params [] st = ok st
act_on_params ((id, t) ∷ ps) st = insert_decl id (object t) st >>= λ s. act_on_params ps s

abbrev pub returning : ℕ → Ty → Option TemplateInstance → State → State
returning idx t none st = st
returning idx t (some i) st = record st {
  instances = set st.instances idx (record i { return_ty = t });
}

abbrev pub set_return : ℕ → Ty → State → State
set_return idx t st = returning idx t (get_elem? st.instances idx) st

unfoldable pub get_return : ℕ → State → Outcome Ty
get_return idx st = elim (get_elem? st.instances idx) [
  | none ↦ fault assert_failed
  | some i ↦ ok i.return_ty
]

-- The return type of the first fragment is the instance's.
abbrev pub set_fragment_return : Bool → ℕ → Ty → State → State
set_fragment_return is_first idx t st = if is_first then set_return idx t st else st

abbrev pub or_else : Ty → Ty → Ty
or_else t u = if is_null t then u else t

-- The return type of the fragment, and the state.
unfoldable pub act_on_function_body : Instantiate → Bool → ℕ → Nodes → State → Outcome (Ty × State)
act_on_function_body inst is_first idx body st = do
  let before = if has_return_stmt body then null_ty else void_ty
  xs ← sema_nodes inst body (set_fragment_return is_first idx before st)
  t ← join_returns null_ty xs.0
  ok (or_else t before, set_fragment_return is_first idx (or_else t before) xs.1)

unfoldable pub sema_domain : Instantiate → FunctionDomain → State → Outcome State
sema_domain inst (custom e) st = sema_expr inst e st >>= λ x. ok x.1
sema_domain inst global st = ok st
sema_domain inst otherwise st = ok st

-- One turn of the loop over the fragments, in a new scope inside the function's.
unfoldable pub act_on_instance_fragment :
    Instantiate → Bool → ℕ → Scope → List Scope → List Ty → Fragment → State → Outcome State
act_on_instance_fragment inst is_first idx scope fd_scopes tys f st = do
  ps ← set_types f.params tys
  st₁ ← act_on_params ps (record st { scopes = scope ∷ fd_scopes })
  st₂ ← sema_domain inst f.domain st₁
  x ← act_on_function_body inst is_first idx f.body st₂
  ret ← get_return idx x.1
  _ ← require (ty_eq x.0 ret) domain_types_differ
  ok x.1

unfoldable pub act_on_fragments :
    Instantiate → Bool → ℕ → Scope → List Scope → List Ty → List Fragment → State → Outcome State
act_on_fragments inst is_first idx scope fd_scopes tys [] st = ok st
act_on_fragments inst is_first idx scope fd_scopes tys (f ∷ fs) st = do
  s ← act_on_instance_fragment inst is_first idx scope fd_scopes tys f st
  act_on_fragments inst false idx scope fd_scopes tys fs s

abbrev pub is_nonempty : List Scope → Bool
is_nonempty [] = false
is_nonempty (s ∷ ss) = true

unfoldable pub create : Instantiate → FunctionDecl → ℕ → List Ty → State → Outcome (Ty × State)
create inst d fd tys st = do
  let idx = length st.instances
  let number = count_instances fd st.instances
  let fd_scopes = find_scope_of_decl fd st.scopes
  let scope : Scope = record { name = some (d.id, number); decls = [] }
  _ ← check (is_nonempty fd_scopes) assert_failed
  param_tys ← first_param_tys d.fragments tys
  let new : TemplateInstance = record {
    decl = fd;
    path = make_full_scope_name fd_scopes;
    number = number;
    param_tys = param_tys;
    return_ty = null_ty;
  }
  s ←
      act_on_fragments inst true idx scope fd_scopes tys d.fragments
        (record st { instances = st.instances ++ new ∷ [] })
  ret ← get_return idx s
  ok (ret, record s { scopes = st.scopes })

unfoldable pub reuse : TemplateInstance → State → Outcome (Ty × State)
reuse i st = do
  _ ← require (not (is_null i.return_ty)) return_type_not_deduced
  ok (i.return_ty, st)

abbrev pub create_of :
    Option FunctionDecl → Instantiate → ℕ → List Ty → State → Outcome (Ty × State)
create_of none inst fd tys st = fault assert_failed
create_of (some d) inst fd tys st = create inst d fd tys st

abbrev pub get_or_create :
    Option TemplateInstance → Instantiate → ℕ → List Ty → State → Outcome (Ty × State)
get_or_create (some i) inst fd tys st = reuse i st
get_or_create none inst fd tys st = create_of (get_elem? st.function_decls fd) inst fd tys st

-- `getOrCreateFunctionInstance`; the fuel is the depth of instances inside instances.
unfoldable pub instantiate : ℕ → Instantiate
instantiate zero fd tys st = out_of_fuel
instantiate (suc n) fd tys st =
    get_or_create (find_instance fd tys st.instances) (instantiate n) fd tys st

-- The first function of that name that the scope holds.
unfoldable pub find_function : String → Scope → ℕ → List FunctionDecl → Option ℕ
find_function id s n [] = none
find_function id s n (d ∷ ds) =
    if str_eq d.id id && contains n s then some n else find_function id s (suc n) ds

abbrev pub find_main : List Scope → List FunctionDecl → Option ℕ
find_main [] ds = none
find_main (s ∷ ss) ds = find_function "main" s 0 ds

abbrev pub enter : Instantiate → Option ℕ → State → Outcome (Ty × State)
enter inst none st = error no_main
enter inst (some fd) st = inst fd [] st

unfoldable pub create_entry_point : Instantiate → State → Outcome (Ty × State)
create_entry_point inst st = enter inst (find_main st.scopes st.function_decls) st

abbrev pub initial : State
initial = record {
  scopes = record { name = none; decls = [] } ∷ [];
  function_decls = [];
  instances = [];
  extern_functions = [];
}

abbrev pub in_global_scope : List Scope → Bool
in_global_scope (s ∷ []) = true
in_global_scope _ = false

-- `Sema::run` up to its last assert.
unfoldable pub analyse : ℕ → Nodes → Outcome (Ty × State)
analyse fuel decls = do
  xs ← sema_nodes (instantiate fuel) decls initial
  create_entry_point (instantiate fuel) xs.1

unfoldable pub run : ℕ → Nodes → Outcome State
run fuel decls = do
  x ← analyse fuel decls
  _ ← check (in_global_scope (x.1).scopes) assert_failed
  ok x.1
