-- ===== src/Mercy/Types/Interning/Canonical.antt =====
-- The types that the addresses of `ArrayType::get` and `FunctionType::get` stand for.
use llvm_mipt.Base.{ℕ, ◌≡◌, sym, ap, ap₂, ◌∙◌, some, List, [], ◌∷◌, get_elem?}
use llvm_mipt.Mercy.Types.{
  Ty, Tys, builtin_type, array_type, function_type, meta_type, null_ty, nil, cons,
}
use llvm_mipt.Mercy.Types.Interning.{
  TypeRef, builtin_ref, array_ref, function_ref, meta_ref, null_ref, FunctionType, TypeStore,
}

-- No element stands at two places.
abbrev pub NoDup {ℓ} : {A : Type ℓ} → List A → Type ℓ
NoDup {A = A} xs = (i j : ℕ) (x : A) → get_elem? xs i ≡ some x → get_elem? xs j ≡ some x → i ≡ j

pub record IsInterned (s : TypeStore) : Type 0 where
  pub arrays : NoDup s.array_types
  pub functions : NoDup s.func_types

unfoldable mutual
  -- The address stands for the type in the store.
  pub Refers : TypeStore → Ty → TypeRef → Type 0
  Refers s (builtin_type k) r = r ≡ builtin_ref k
  Refers s (array_type t) r =
      (n : ℕ) × (e : TypeRef) × (r ≡ array_ref n)
      × (get_elem? s.array_types n ≡ some e)
      × Refers s t e
  Refers s (function_type t ts) r =
      (n : ℕ) × (f : FunctionType) × (r ≡ function_ref n)
      × (get_elem? s.func_types n ≡ some f)
      × Refers s t f.ret_ty
      × AllRefer s ts f.param_tys
  Refers s meta_type r = r ≡ meta_ref
  Refers s null_ty r = r ≡ null_ref

  pub AllRefer : TypeStore → Tys → List TypeRef → Type 0
  AllRefer s nil rs = rs ≡ []
  AllRefer s (cons t ts) rs =
      (q : TypeRef) × (qs : List TypeRef) × (rs ≡ q ∷ qs) × Refers s t q × AllRefer s ts qs

module _ (s : TypeStore) (h : IsInterned s) where
  mutual
    unfolding Refers AllRefer

    -- A type has one address.
    pub unique : (t : Ty) (r q : TypeRef) → Refers s t r → Refers s t q → r ≡ q
    unique (builtin_type k) r q a b = a ∙ sym b
    unique (array_type t) r q (i, e, ei, ge, a) (j, f, ej, gf, b) =
        ei ∙ ap array_ref (h.arrays i j e ge (gf ∙ ap some (unique t f e b a))) ∙ sym ej
    unique (function_type t ts) r q (i, e, ei, ge, a, al) (j, f, ej, gf, b, bs) =
        ei
        ∙ ap function_ref (
            h.functions i j e ge (
              gf
              ∙ ap some (
                  ap₂ (λ x xs. record { ret_ty = x; param_tys = xs })
                    (unique t f.ret_ty e.ret_ty b a)
                    (unique_all ts f.param_tys e.param_tys bs al))))
        ∙ sym ej
    unique meta_type r q a b = a ∙ sym b
    unique null_ty r q a b = a ∙ sym b

    unique_all : (ts : Tys) (rs qs : List TypeRef) → AllRefer s ts rs → AllRefer s ts qs → rs ≡ qs
    unique_all nil rs qs a b = a ∙ sym b
    unique_all (cons t ts) rs qs (r, rs', er, a, al) (q, qs', eq, b, bs) =
        er ∙ ap₂ (◌∷◌) (unique t r q a b) (unique_all ts rs' qs' al bs) ∙ sym eq

-- The second store has every entry of the first at its place.
pub record Extends (s u : TypeStore) : Type 0 where
  pub arrays :
      (n : ℕ) (e : TypeRef)
      → get_elem? s.array_types n ≡ some e
      → get_elem? u.array_types n ≡ some e
  pub functions :
      (n : ℕ) (f : FunctionType)
      → get_elem? s.func_types n ≡ some f
      → get_elem? u.func_types n ≡ some f

module _ (s u : TypeStore) (h : Extends s u) where
  mutual
    unfolding Refers AllRefer

    pub Refers-Extends : (t : Ty) (r : TypeRef) → Refers s t r → Refers u t r
    Refers-Extends (builtin_type k) r a = a
    Refers-Extends (array_type t) r (n, e, er, g, a) =
        (n, e, er, h.arrays n e g, Refers-Extends t e a)
    Refers-Extends (function_type t ts) r (n, f, er, g, a, al) = (
      n,
      f,
      er,
      h.functions n f g,
      Refers-Extends t f.ret_ty a,
      AllRefer-Extends ts f.param_tys al,
    )
    Refers-Extends meta_type r a = a
    Refers-Extends null_ty r a = a

    pub AllRefer-Extends : (ts : Tys) (rs : List TypeRef) → AllRefer s ts rs → AllRefer u ts rs
    AllRefer-Extends nil rs a = a
    AllRefer-Extends (cons t ts) rs (q, qs, er, a, al) =
        (q, qs, er, Refers-Extends t q a, AllRefer-Extends ts qs al)
