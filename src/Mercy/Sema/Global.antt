-- ===== src/Mercy/Sema/Global.antt =====
-- The scope in which `Sema::run` of mercy/src/Sema.cpp ends.
use llvm_mipt.Base.{
  ℕ, zero, suc, ◌≡◌, refl, ap, ◌∙◌, true, not, Option, none, some, List, [], ◌∷◌, String, length,
  get_elem?, arith,
}
use llvm_mipt.Mercy.Types.{Ty}
use llvm_mipt.Mercy.Ast.{
  Node, expression, variable_decl, return_stmt, function_fragment, Nodes, no_nodes, more_nodes,
}
use llvm_mipt.Mercy.Sema.State.{
  Outcome, ok, error, fault, out_of_fuel, ◌>>=◌, require, check, State, Scope, Decl, object,
  function, Fragment, FunctionDecl, TemplateInstance, find_on_top, on_top, insert_decl, insert_new,
  assert_failed, find_scope_of_decl, return_type_not_deduced,
}
use llvm_mipt.Mercy.Sema.Analysis.{
  Instantiate, is_null, sema_expr, type_before, act_on_variable_decl, append_fragment, define,
  act_on_function_fragment, sema_node, sema_nodes,
}
use llvm_mipt.Mercy.Sema.Instances.{
  find_instance, reuse, create_of, create, get_or_create, instantiate, create_entry_point, enter,
  find_main, initial, in_global_scope, analyse, run, get_return, act_on_fragments, first_param_tys,
  is_nonempty,
}
use llvm_mipt.Mercy.Sema.Scoping.{
  Reached, bind, after, chain, DeepSnd, Deep, DeepAfter, Restores, expr-Deep,
}

length-on_top : (f : Scope → Scope) (ss : List Scope) → length (on_top f ss) ≡ length ss
length-on_top f [] = refl
length-on_top f (s ∷ ss) = refl

insert_new-Deep :
    (n : ℕ) (id : String) (d : Decl) (o : Option Decl) (st : State)
    → Deep n st
    → Reached (Deep n) (insert_new id d o st)
insert_new-Deep n id d (some e) st h = tt
insert_new-Deep n id d none st h = length-on_top _ st.scopes ∙ h

append-Deep :
    (n : ℕ) (f : Fragment) (fd : ℕ) (o : Option FunctionDecl) (st : State)
    → Deep n st
    → Reached (Deep n) (append_fragment f fd o st)
append-Deep n f fd none st h = tt
append-Deep n f fd (some d) st h = h

define-Deep :
    (n : ℕ) (id : String) (f : Fragment) (o : Option Decl) (st : State)
    → Deep n st
    → Reached (Deep n) (define id f o st)
define-Deep n id f (some (function fd)) st h =
    append-Deep n f fd (get_elem? st.function_decls fd) st h
define-Deep n id f (some (object t)) st h = tt
define-Deep n id f none st h = length-on_top _ st.scopes ∙ h

module _ (inst : Instantiate) (restores : Restores inst) where
  node-Deep : (n : ℕ) (x : Node) (st : State) → Deep n st → DeepAfter n (sema_node inst x st)
  unfolding sema_node act_on_variable_decl act_on_function_fragment insert_decl
  node-Deep n (expression e) st h =
      chain n (sema_expr inst e st) _ (expr-Deep inst restores n e st h) (λ x k. k)
  node-Deep n (variable_decl id init is_ref) st h =
      bind (Deep n) (DeepSnd n) (act_on_variable_decl inst id init st) _
        (bind (Deep n) (Deep n) (insert_decl id (object (type_before init)) st) _
          (insert_new-Deep n id _ (find_on_top id st.scopes) st h)
          (λ s k.
            bind (DeepSnd n) (Deep n) (sema_expr inst init s) _ (expr-Deep inst restores n init s k)
              (λ x j. length-on_top _ (x.1).scopes ∙ j)))
        (λ s k. k)
  node-Deep n (return_stmt e) st h =
      chain n (sema_expr inst e st) _ (expr-Deep inst restores n e st h) (λ x k. k)
  node-Deep n (function_fragment id params body domain) st h =
      bind (Deep n) (DeepSnd n) (act_on_function_fragment id _ st) _
        (define-Deep n id _ (find_on_top id st.scopes) st h) (λ s k. k)

  nodes-Deep : (n : ℕ) (xs : Nodes) (st : State) → Deep n st → DeepAfter n (sema_nodes inst xs st)
  unfolding sema_nodes
  nodes-Deep n no_nodes st h = h
  nodes-Deep n (more_nodes x xs) st h =
      chain n (sema_node inst x st) _ (node-Deep n x st h)
        (λ y k. chain n (sema_nodes inst xs y.1) _ (nodes-Deep n xs y.1 k) (λ z j. j))

-- An instance is analysed in scopes of its own, and the scopes of the caller are put back.
create-Deep :
    (inst : Instantiate) (n : ℕ) (d : FunctionDecl) (fd : ℕ) (tys : List Ty) (st : State)
    → Deep n st
    → DeepAfter n (create inst d fd tys st)
unfolding create
create-Deep inst n d fd tys st h =
    after (DeepSnd n) (check (is_nonempty (find_scope_of_decl fd st.scopes)) assert_failed) _ (λ a.
      after (DeepSnd n) (first_param_tys d.fragments tys) _ (λ ts.
        after (DeepSnd n) (act_on_fragments inst true _ _ _ _ _ _) _
          (λ s. after (DeepSnd n) (get_return (length st.instances) s) _ (λ ret. h))))

instantiate-Restores : (fuel : ℕ) → Restores (instantiate fuel)
unfolding instantiate reuse
instantiate-Restores zero n fd tys st h = tt
instantiate-Restores (suc m) n fd tys st h = of (find_instance fd tys st.instances)
  where
    made : (d : Option FunctionDecl) → DeepAfter n (create_of d (instantiate m) fd tys st)
    made none = tt
    made (some d) = create-Deep (instantiate m) n d fd tys st h

    of : (i : Option TemplateInstance) → DeepAfter n (get_or_create i (instantiate m) fd tys st)
    of (some i) =
        after (DeepSnd n) (require (not (is_null i.return_ty)) return_type_not_deduced)
          (λ u. ok (i.return_ty, st)) (λ a. h)
    of none = made (get_elem? st.function_decls fd)

analyse-Deep : (fuel : ℕ) (decls : Nodes) → DeepAfter 1 (analyse fuel decls)
unfolding analyse create_entry_point
analyse-Deep fuel decls =
    chain 1 (sema_nodes (instantiate fuel) decls initial) _
      (nodes-Deep (instantiate fuel) (instantiate-Restores fuel) 1 decls initial refl)
      (λ x k. entered (find_main (x.1).scopes (x.1).function_decls) x.1 k)
  where
    entered : (o : Option ℕ) (st : State) → Deep 1 st → DeepAfter 1 (enter (instantiate fuel) o st)
    entered none st h = tt
    entered (some fd) st h = instantiate-Restores fuel 1 fd [] st h

one_global : (ss : List Scope) → length ss ≡ 1 → in_global_scope ss ≡ true
one_global [] h = cc
one_global (s ∷ []) h = refl
one_global (s ∷ t ∷ ss) h = ground arith

checked :
    (o : Outcome (Ty × State))
    → DeepAfter 1 o
    → (o >>= λ x. check (in_global_scope (x.1).scopes) assert_failed >>= λ u. ok x.1)
      ≡ (o >>= λ x. ok x.1)
checked (ok x) h = ap (λ b. check b assert_failed >>= λ u. ok x.1) (one_global (x.1).scopes h)
checked (error e) h = refl
checked (fault e) h = refl
checked out_of_fuel h = refl

-- The last assert of `Sema::run`, that the current scope is the global one, never fails: whatever
-- the file, and however deep functions instantiate each other, `run` gives what the analysis gives.
pub run-analyse : (fuel : ℕ) (decls : Nodes) → run fuel decls ≡ (analyse fuel decls >>= λ x. ok x.1)
unfolding run
run-analyse fuel decls = checked (analyse fuel decls) (analyse-Deep fuel decls)
