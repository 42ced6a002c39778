-- ===== src/Mercy/Sema/Scoping.antt =====
-- The chain of scopes during the analysis of an expression in mercy/src/Sema.cpp.
use llvm_mipt.Base.{
  ℕ, ◌≡◌, Bool, true, false, not, Option, none, some, List, [], ◌∷◌, String, str_eq, length,
  if◌then◌else◌,
}
use llvm_mipt.Mercy.Types.{Ty, builtin_type, array_type, function_type, meta_type, null_ty}
use llvm_mipt.Mercy.Ast.{
  Expr, integral_literal, string_literal, type_expr, binary_operator, unary_operator, identifier,
  function_call, array_subscript_expr, Exprs, no_exprs, more_exprs,
}
use llvm_mipt.Mercy.Sema.State.{
  Outcome, ok, error, fault, out_of_fuel, ◌>>=◌, require, State, Decl, object, function,
  find_decl_recursive, is_empty, is_string, as_type, as_string, symbol_name_not_constexpr,
  symbol_name_not_string, symbol_type_not_constexpr,
}
use llvm_mipt.Mercy.Sema.Calls.{
  Info, Arg, typed, arg_tys, call_type, call_array, call_alloca, call_extern, extern_symbol,
  call_function_type, call_value,
}
use llvm_mipt.Mercy.Sema.Analysis.{
  Instantiate, act_on_identifier, identified, keep, called, call_user, call_named, call_on,
  sema_expr, sema_args, decl_ty,
}

-- Each result that is reached has the property.
abbrev pub Reached {ℓ} : {A : Type ℓ} → (A → Type 0) → Outcome A → Type 0
Reached P (ok a) = P a
Reached P _ = Unit

module _ {ℓ κ} {A : Type ℓ} {B : Type κ} where
  pub bind :
      (P : A → Type 0) (Q : B → Type 0) (o : Outcome A) (f : A → Outcome B)
      → Reached P o
      → ((a : A) → P a → Reached Q (f a))
      → Reached Q (o >>= f)
  bind P Q (ok a) f h k = k a h
  bind P Q (error e) f h k = tt
  bind P Q (fault e) f h k = tt
  bind P Q out_of_fuel f h k = tt

  -- After a step that cannot touch the state.
  pub after :
      (Q : B → Type 0) (o : Outcome A) (f : A → Outcome B)
      → ((a : A) → Reached Q (f a))
      → Reached Q (o >>= f)
  after Q (ok a) f k = k a
  after Q (error e) f k = tt
  after Q (fault e) f k = tt
  after Q out_of_fuel f k = tt

-- The chain of scopes is this long.
abbrev pub Deep : ℕ → State → Type 0
Deep n st = length st.scopes ≡ n

abbrev pub DeepAfter {ℓ} : {A : Type ℓ} → ℕ → Outcome (A × State) → Type 0
DeepAfter n o = Reached (λ x. Deep n x.1) o

-- An instantiation leaves the chain as long as it was.
abbrev pub Restores : Instantiate → Type 0
Restores inst = (n fd : ℕ) (tys : List Ty) (st : State) → Deep n st → DeepAfter n (inst fd tys st)

abbrev pub DeepSnd {ℓ} : {A : Type ℓ} → ℕ → A × State → Type 0
DeepSnd n x = Deep n x.1

module _ {ℓ κ} {A : Type ℓ} {B : Type κ} where
  pub chain :
      (n : ℕ) (o : Outcome (A × State)) (f : A × State → Outcome (B × State))
      → DeepAfter n o
      → ((x : A × State) → Deep n x.1 → DeepAfter n (f x))
      → DeepAfter n (o >>= f)
  chain n o f h k = bind (DeepSnd n) (DeepSnd n) o f h k

if-Deep {ℓ} :
    {A : Type ℓ} (n : ℕ) (b : Bool) (x y : Outcome (A × State))
    → DeepAfter n x
    → DeepAfter n y
    → DeepAfter n (if b then x else y)
if-Deep n true x y h k = h
if-Deep n false x y h k = k

keep-Deep : (n : ℕ) (st : State) (o : Outcome Info) → Deep n st → DeepAfter n (keep st o)
keep-Deep n st o h = after (DeepSnd n) o (λ i. ok (i, st)) (λ i. h)

identified-Deep :
    (n : ℕ) (name : String) (o : Option Decl) (st : State)
    → Deep n st
    → DeepAfter n (identified name o st)
identified-Deep n name none st h = tt
identified-Deep n name (some d) st h =
    after (DeepSnd n) (decl_ty d st) (λ t. ok (typed t, st)) (λ t. h)

symbol-Deep :
    (n : ℕ) (name : String) (t : Ty) (st : State)
    → Deep n st
    → DeepAfter n (extern_symbol name t st)
unfolding extern_symbol
symbol-Deep n name (builtin_type k) st h = h
symbol-Deep n name (function_type r ps) st h = h
symbol-Deep n name null_ty st h = tt
symbol-Deep n name (array_type t) st h = tt
symbol-Deep n name meta_type st h = tt

extern-Deep : (n : ℕ) (args : List Arg) (st : State) → Deep n st → DeepAfter n (call_extern args st)
unfolding call_extern
extern-Deep n (s ∷ t ∷ []) st h =
    after (DeepSnd n) (require (not (is_empty s.info.value)) symbol_name_not_constexpr) _ (λ a.
      after (DeepSnd n) (require (is_string s.info.value) symbol_name_not_string) _ (λ b.
        after (DeepSnd n) (require (not (is_empty t.info.value)) symbol_type_not_constexpr) _ (λ c.
          after (DeepSnd n) (as_type t.info.value) _ (λ ty.
            after (DeepSnd n) (as_string s.info.value) _ (λ name. symbol-Deep n name ty st h)))))
extern-Deep n _ st h = tt

module _ (inst : Instantiate) (restores : Restores inst) where
  called-Deep :
      (n : ℕ) (name : String) (o : Option Decl) (tys : List Ty) (st : State)
      → Deep n st
      → DeepAfter n (called inst name o tys st)
  called-Deep n name none tys st h = tt
  called-Deep n name (some (object t)) tys st h = tt
  called-Deep n name (some (function fd)) tys st h =
      chain n (inst fd tys st) (λ r. ok (typed r.0, r.1)) (restores n fd tys st h) (λ r k. k)

  named-Deep :
      (n : ℕ) (name : String) (args : List Arg) (st : State)
      → Deep n st
      → DeepAfter n (call_named inst name args st)
  unfolding call_named call_user
  named-Deep n name args st h =
      if-Deep n (str_eq name "array") _ _ (keep-Deep n st (call_array (arg_tys args)) h) (
        if-Deep n (str_eq name "alloca") _ _ (keep-Deep n st (call_alloca args) h) (
          if-Deep n (str_eq name "extern") _ _ (extern-Deep n args st h) (
            if-Deep n (str_eq name "function_type") _ _ (keep-Deep n st (call_function_type args) h)
              (if-Deep n (str_eq name "print") _ _ h
                (called-Deep n name (find_decl_recursive name st.scopes) (arg_tys args) st h)))))

  call-Deep :
      (n : ℕ) (callee : Expr) (args : List Arg) (k : State → Outcome (Info × State)) (st : State)
      → Deep n st
      → DeepAfter n (k st)
      → DeepAfter n (call_on inst callee args k st)
  unfolding call_on
  call-Deep n (type_expr t) args k st h g = keep-Deep n st (call_type t args) h
  call-Deep n (identifier name) args k st h g = named-Deep n name args st h
  call-Deep n _ args k st h g =
      chain n (k st) (λ r. keep r.1 (call_value (r.0).value)) g
        (λ r e. keep-Deep n r.1 (call_value (r.0).value) e)

  mutual
    unfolding sema_expr sema_args act_on_identifier

    pub expr-Deep : (n : ℕ) (e : Expr) (st : State) → Deep n st → DeepAfter n (sema_expr inst e st)
    expr-Deep n (integral_literal v) st h = h
    expr-Deep n (string_literal s) st h = h
    expr-Deep n (type_expr t) st h = h
    expr-Deep n (binary_operator op l r) st h =
        chain n (sema_expr inst l st) _ (expr-Deep n l st h) (λ x k.
          chain n (sema_expr inst r x.1) _ (expr-Deep n r x.1 k) (λ y j. keep-Deep n y.1 _ j))
    expr-Deep n (unary_operator op e) st h =
        chain n (sema_expr inst e st) _ (expr-Deep n e st h) (λ x k. keep-Deep n x.1 _ k)
    expr-Deep n (identifier name) st h =
        identified-Deep n name (find_decl_recursive name st.scopes) st h
    expr-Deep n (function_call callee args) st h =
        chain n (sema_args inst args st) _ (args-Deep n args st h) (λ x k.
          call-Deep n callee x.0 (λ s. sema_expr inst callee s) x.1 k (expr-Deep n callee x.1 k))
    expr-Deep n (array_subscript_expr a i) st h =
        chain n (sema_expr inst a st) _ (expr-Deep n a st h) (λ x k.
          chain n (sema_expr inst i x.1) _ (expr-Deep n i x.1 k) (λ y j. keep-Deep n y.1 _ j))

    args-Deep : (n : ℕ) (es : Exprs) (st : State) → Deep n st → DeepAfter n (sema_args inst es st)
    args-Deep n no_exprs st h = h
    args-Deep n (more_exprs e es) st h =
        chain n (sema_expr inst e st) _ (expr-Deep n e st h)
          (λ x k. chain n (sema_args inst es x.1) _ (args-Deep n es x.1 k) (λ y j. j))
