-- ===== src/Mercy/Tests.antt =====
-- The theorems on Mercy at concrete inputs.
use llvm_mipt.Base.{◌⊎◌, ◌↔◌, none, ℕ, zero, suc, ◌≡◌, refl, false, some, [], ◌∷◌, get_elem?}
use llvm_mipt.Base.Word.{pos}
use llvm_mipt.Mercy.Types.{
  Ty, array_type, function_type, nil, cons, int_ty, bool_ty, string_ty, int32_kind,
}
use llvm_mipt.Mercy.Types.Names.{print, is_printed, is_printed-print, is_printable}
use llvm_mipt.Mercy.Types.Interning.{
  TypeRef, builtin_ref, array_ref, TypeStore, get_array, get_function,
}
use llvm_mipt.Mercy.Types.Interning.Canonical.{IsInterned, Refers, AllRefer}
use llvm_mipt.Mercy.Types.Interning.Address.{get_array_twice}
use llvm_mipt.Mercy.Types.Interning.Insert.{Interns, get_array-Interns, get_function-Interns}
use llvm_mipt.Mercy.Ast.{
  Node, Nodes, integral_literal, identifier, binary_operator, function_call, no_exprs, more_exprs,
  more_nodes, no_nodes, variable_decl, return_stmt, function_fragment, global, otherwise, custom,
  add_op, lt_op,
}
use llvm_mipt.Mercy.Sema.State.{
  ok, error, ◌>>=◌, Scope, Decl, object, find, insert, insert_decl, find_decl_recursive,
  redefinition,
}
use llvm_mipt.Mercy.Sema.Lookup.{in_scopes, insert_decl-find}
use llvm_mipt.Mercy.Sema.Instances.{run, analyse, initial}
use llvm_mipt.Mercy.Sema.Global.{run-analyse}

is_printed-print_example :
    is_printed (print (array_type string_ty)) ≡ is_printable (array_type string_ty)
is_printed-print_example = is_printed-print (array_type string_ty)

-- A store that has the type `array_type(int)`.
abbrev one_array : TypeStore
one_array = record { array_types = builtin_ref int32_kind ∷ []; func_types = [] }

one_array-IsInterned : IsInterned one_array
one_array-IsInterned = record { arrays = at_most_one; functions = λ i j f a b. cc }
  where
    at_most_one :
        (i j : ℕ) (x : TypeRef)
        → get_elem? (one_array.array_types) i ≡ some x
        → get_elem? (one_array.array_types) j ≡ some x
        → i ≡ j
    at_most_one zero zero x a b = refl
    at_most_one zero (suc j) x a b = cc
    at_most_one (suc i) j x a b = cc

abbrev ints : Ty
ints = array_type int_ty

ints-Refers : Refers one_array ints (array_ref 0)
unfolding Refers
ints-Refers = (0, builtin_ref int32_kind, refl, refl, refl)

int-Refers : Refers (get_array (array_ref 0) one_array).1 int_ty (builtin_ref int32_kind)
unfolding Refers
int-Refers = refl

-- `array_type(array_type(int))`, and then `array_type(int)`.
get_array_twice_example :
    ((get_array (builtin_ref int32_kind) (get_array (array_ref 0) one_array).1).0
      ≡ (get_array (array_ref 0) one_array).0)
    ↔ (ints ≡ int_ty)
get_array_twice_example =
    get_array_twice one_array ints int_ty (array_ref 0) (builtin_ref int32_kind)
      one_array-IsInterned ints-Refers int-Refers

get_array-Interns_example : Interns one_array (array_type ints) (get_array (array_ref 0) one_array)
get_array-Interns_example =
    get_array-Interns one_array ints (array_ref 0) one_array-IsInterned ints-Refers

params-AllRefer : AllRefer one_array (cons ints nil) (array_ref 0 ∷ [])
unfolding AllRefer
params-AllRefer = (array_ref 0, [], refl, ints-Refers, refl)

get_function-Interns_example :
    Interns one_array
      (function_type ints (cons ints nil))
      (get_function (array_ref 0) (array_ref 0 ∷ []) one_array)
get_function-Interns_example =
    get_function-Interns one_array ints (cons ints nil) (array_ref 0) (array_ref 0 ∷ [])
      one_array-IsInterned ints-Refers params-AllRefer

-- `f(x) = { y = x + 1; return f(y); } otherwise`, `f(x) = { return 0; } : x < 1` and `main`.
abbrev recursive : Node
recursive =
    function_fragment "f" (record { id = "x"; is_ref = false } ∷ [])
      (more_nodes
        (variable_decl "y" (binary_operator add_op (identifier "x") (integral_literal (pos 1)))
          false)
        (more_nodes
          (return_stmt (function_call (identifier "f") (more_exprs (identifier "y") no_exprs)))
          no_nodes))
      otherwise

abbrev base_case : Node
base_case =
    function_fragment "f" (record { id = "x"; is_ref = false } ∷ [])
      (more_nodes (return_stmt (integral_literal (pos 0))) no_nodes)
      (custom (binary_operator lt_op (identifier "x") (integral_literal (pos 1))))

abbrev main_fn : Node
main_fn =
    function_fragment "main" []
      (more_nodes
        (return_stmt
          (function_call (identifier "f") (more_exprs (integral_literal (pos 7)) no_exprs)))
        no_nodes)
      global

abbrev file : Nodes
file = more_nodes base_case (more_nodes recursive (more_nodes main_fn no_nodes))

run-analyse_example : run 5 file ≡ (analyse 5 file >>= λ x. ok x.1)
run-analyse_example = run-analyse 5 file

-- A scope with `x` inside one with `y`.
abbrev inner : Scope
inner = record { name = some ("f", 0); decls = ("x", object int_ty) ∷ [] }

abbrev outer : Scope
outer = record { name = none; decls = ("y", object bool_ty) ∷ [] }

insert_decl-find_example :
    ((e : Decl) × (find "y" inner ≡ some e)
      × (insert_decl "y" (object int_ty) (in_scopes inner (outer ∷ []) initial)
          ≡ error (redefinition "y")))
    ⊎ ((find "y" inner ≡ none)
        × (insert_decl "y" (object int_ty) (in_scopes inner (outer ∷ []) initial)
            ≡ ok (in_scopes (insert "y" (object int_ty) inner) (outer ∷ []) initial))
        × (find_decl_recursive "y" (insert "y" (object int_ty) inner ∷ outer ∷ [])
            ≡ some (object int_ty))
        × (find_decl_recursive "x" (insert "y" (object int_ty) inner ∷ outer ∷ [])
            ≡ find_decl_recursive "x" (inner ∷ outer ∷ [])))
insert_decl-find_example = insert_decl-find "y" "x" (object int_ty) inner (outer ∷ []) initial refl
