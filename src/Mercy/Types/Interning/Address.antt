-- ===== src/Mercy/Types/Interning/Address.antt =====
-- Types as addresses: what two calls of `ArrayType::get` of mercy/src/Type.cpp answer.
use llvm_mipt.Base.{ℕ, ◌≡◌, ◌↔◌, refl, sym, ap, ap₂, ◌∙◌, subst, some, List, get_elem?}
use llvm_mipt.Mercy.Types.{
  Ty, Tys, builtin_type, array_type, function_type, meta_type, null_ty, nil, cons,
}
use llvm_mipt.Mercy.Types.Interning.{TypeRef, TypeStore, get_array}
use llvm_mipt.Mercy.Types.Interning.Canonical.{IsInterned, Refers, AllRefer, Refers-Extends, unique}
use llvm_mipt.Mercy.Types.Interning.Insert.{Interns, get_array-Interns}

get_elem?-functional {ℓ} :
    {A : Type ℓ} (xs : List A) (i j : ℕ) (x y : A)
    → i ≡ j
    → get_elem? xs i ≡ some x
    → get_elem? xs j ≡ some y
    → x ≡ y
get_elem?-functional xs i j x y n a b =
    let same : some x ≡ some y = sym a ∙ ap (get_elem? xs) n ∙ b in cc

module _ (s : TypeStore) where
  mutual
    unfolding Refers AllRefer

    -- An address stands for one type at most.
    denotes : (t u : Ty) (r : TypeRef) → Refers s t r → Refers s u r → t ≡ u
    denotes (builtin_type b) (builtin_type k) r p q = cc
    denotes (builtin_type b) (array_type u) r p (j, f, ej, gf, q) = cc
    denotes (builtin_type b) (function_type u us) r p (j, f, ej, gf, q, ql) = cc
    denotes (builtin_type b) meta_type r p q = cc
    denotes (builtin_type b) null_ty r p q = cc
    denotes (array_type t) (builtin_type k) r (i, e, ei, ge, p) q = cc
    denotes (array_type t) (array_type u) r (i, e, ei, ge, p) (j, f, ej, gf, q) =
        let n : i ≡ j = cc in
        let h : e ≡ f = get_elem?-functional s.array_types i j e f n ge gf in
        ap array_type (denotes t u f (subst (Refers s t) h p) q)
    denotes (array_type t) (function_type u us) r (i, e, ei, ge, p) (j, f, ej, gf, q, ql) = cc
    denotes (array_type t) meta_type r (i, e, ei, ge, p) q = cc
    denotes (array_type t) null_ty r (i, e, ei, ge, p) q = cc
    denotes (function_type t ts) (builtin_type k) r (i, e, ei, ge, p, pl) q = cc
    denotes (function_type t ts) (array_type u) r (i, e, ei, ge, p, pl) (j, f, ej, gf, q) = cc
    denotes (function_type t ts) (function_type u us) r (i, e, ei, ge, p, pl)
          (j, f, ej, gf, q, ql) =
        let n : i ≡ j = cc in
        let h : e ≡ f = get_elem?-functional s.func_types i j e f n ge gf in
        ap₂ function_type (denotes t u f.ret_ty (subst (λ g. Refers s t g.ret_ty) h p) q)
          (denotes_all ts us f.param_tys (subst (λ g. AllRefer s ts g.param_tys) h pl) ql)
    denotes (function_type t ts) meta_type r (i, e, ei, ge, p, pl) q = cc
    denotes (function_type t ts) null_ty r (i, e, ei, ge, p, pl) q = cc
    denotes meta_type (builtin_type k) r p q = cc
    denotes meta_type (array_type u) r p (j, f, ej, gf, q) = cc
    denotes meta_type (function_type u us) r p (j, f, ej, gf, q, ql) = cc
    denotes meta_type meta_type r p q = refl
    denotes meta_type null_ty r p q = cc
    denotes null_ty (builtin_type k) r p q = cc
    denotes null_ty (array_type u) r p (j, f, ej, gf, q) = cc
    denotes null_ty (function_type u us) r p (j, f, ej, gf, q, ql) = cc
    denotes null_ty meta_type r p q = cc
    denotes null_ty null_ty r p q = refl

    denotes_all : (ts us : Tys) (rs : List TypeRef) → AllRefer s ts rs → AllRefer s us rs → ts ≡ us
    denotes_all nil nil rs p q = refl
    denotes_all nil (cons u us) rs p (y, ys, ey, q, ql) = cc
    denotes_all (cons t ts) nil rs (x, xs, ex, p, pl) q = cc
    denotes_all (cons t ts) (cons u us) rs (x, xs, ex, p, pl) (y, ys, ey, q, ql) =
        let h : x ≡ y = cc in
        let hs : xs ≡ ys = cc in
        ap₂ cons (denotes t u y (subst (Refers s t) h p) q)
          (denotes_all ts us ys (subst (AllRefer s ts) hs pl) ql)

-- Two array types in turn, from a store without a double entry: for element types that the
-- addresses `r` and `q` stand for, the two calls of `ArrayType::get` answer the same address exactly
-- if the element types are equal.
pub get_array_twice :
    (s : TypeStore) (t u : Ty) (r q : TypeRef)
    → IsInterned s
    → Refers s t r
    → Refers (get_array r s).1 u q
    → ((get_array q (get_array r s).1).0 ≡ (get_array r s).0) ↔ (t ≡ u)
get_array_twice s t u r q h a b = (same, found)
  where
    first : Interns s (array_type t) (get_array r s)
    first = get_array-Interns s t r h a

    second : Interns (get_array r s).1 (array_type u) (get_array q (get_array r s).1)
    second = get_array-Interns (get_array r s).1 u q first.interned b

    kept : Refers (get_array q (get_array r s).1).1 (array_type t) (get_array r s).0
    kept =
        Refers-Extends (get_array r s).1 (get_array q (get_array r s).1).1 second.extends
          (array_type t) (get_array r s).0 first.refers

    found : t ≡ u → (get_array q (get_array r s).1).0 ≡ (get_array r s).0
    found e =
        unique (get_array q (get_array r s).1).1 second.interned (array_type u)
          (get_array q (get_array r s).1).0 (get_array r s).0 second.refers
          (subst (λ x. Refers (get_array q (get_array r s).1).1 (array_type x) (get_array r s).0) e
            kept)

    same : (get_array q (get_array r s).1).0 ≡ (get_array r s).0 → t ≡ u
    same e =
        let eq : array_type t ≡ array_type u =
          denotes (get_array q (get_array r s).1).1 (array_type t) (array_type u) (get_array r s).0
            kept
            (subst (Refers (get_array q (get_array r s).1).1 (array_type u)) e second.refers) in
        cc
