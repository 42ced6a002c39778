-- ===== src/Mercy/Codegen/FunctionTyping.antt =====
-- Functions as mercy/src/Sema.cpp types them.
use llvm_mipt.Base.{ℕ, ◌≡◌, false, Option, some, List, [], ◌∷◌, length, ◌==◌, if◌then◌else◌}
use llvm_mipt.Mercy.Types.{Ty, bool_kind, builtin_type, void_ty, BuiltinKind, Tys, nil, cons}
use llvm_mipt.Mercy.Codegen.Tree.{get_ty}
use llvm_mipt.Mercy.Codegen.Typing.{HasTypes}
use llvm_mipt.Mercy.Codegen.Functions.{
  TypedStmt, expr_stmt, var_stmt, ret_stmt, TypedDomain, on_custom, TypedParam, TypedFragment,
  TypedFunction,
}

abbrev pub set_decl : ℕ → Option Ty → (ℕ → Option Ty) → ℕ → Option Ty
set_decl i t decls j = if j == i then t else decls j

-- The statements of a function that returns `ret`. A body without a return is in a function that
-- returns nothing.
abbrev pub BodyTyped : Ty → (ℕ → Option Ty) → List TypedStmt → Type 0
BodyTyped ret decls [] = ret ≡ void_ty
BodyTyped ret decls (expr_stmt e ∷ ss) = HasTypes decls e × BodyTyped ret decls ss
BodyTyped ret decls (var_stmt is_ref id i e ∷ ss) =
    (is_ref ≡ false) × HasTypes decls e × BodyTyped ret (set_decl i (some (get_ty e)) decls) ss
BodyTyped ret decls (ret_stmt t e ∷ ss) = (t ≡ ret) × HasTypes decls e × (get_ty e ≡ t)

abbrev pub DomainTyped : (ℕ → Option Ty) → TypedDomain → Type 0
DomainTyped decls (on_custom e) = HasTypes decls e × (get_ty e ≡ builtin_type bool_kind)
DomainTyped decls d = Unit

-- The parameters of a fragment have the types of those of the first.
abbrev pub bind_decls : List TypedParam → List TypedParam → (ℕ → Option Ty) → ℕ → Option Ty
bind_decls [] ps decls = decls
bind_decls (f ∷ fs) [] decls = decls
bind_decls (f ∷ fs) (p ∷ ps) decls = bind_decls fs ps (set_decl p.decl (decls f.decl) decls)

-- The declarations with the parameters of the first fragment.
abbrev pub param_decls : List TypedParam → (ℕ → Option Ty) → ℕ → Option Ty
param_decls [] decls = decls
param_decls (p ∷ ps) decls = param_decls ps (set_decl p.decl (some p.ty) decls)

abbrev pub FragmentsTyped : Ty → List TypedParam → (ℕ → Option Ty) → List TypedFragment → Type 0
FragmentsTyped ret front decls [] = Unit
FragmentsTyped ret front decls (f ∷ fs) =
    (length front ≡ length f.params)
    × DomainTyped (bind_decls front f.params decls) f.domain
    × BodyTyped ret (bind_decls front f.params decls) f.body
    × FragmentsTyped ret front (bind_decls front f.params decls) fs

-- The parameters of an instance are those of its first fragment.
abbrev pub ParamsAgree : List TypedParam → Tys → Type 0
ParamsAgree [] nil = Unit
ParamsAgree [] (cons t ts) = ⊥
ParamsAgree (p ∷ ps) nil = ⊥
ParamsAgree (p ∷ ps) (cons t ts) = (p.ty ≡ t) × ParamsAgree ps ts

-- The function as the analysis leaves it: with a builtin type that it returns.
pub record IsTyped (decls : ℕ → Option Ty) (f : TypedFunction) : Type 0 where
  pub kind : BuiltinKind
  pub returns : f.instance_of.return_ty ≡ builtin_type kind
  pub params : ParamsAgree f.front.params f.instance_of.param_tys
  pub fragments :
      FragmentsTyped f.instance_of.return_ty f.front.params
        (param_decls f.front.params decls)
        (f.front ∷ f.more)
