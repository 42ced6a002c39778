-- ===== src/Mercy/Types/Interning/Get.antt =====
-- The search in the stores of mercy/src/Type.cpp.
use llvm_mipt.Base.{
  ℕ, zero, suc, ◌≡◌, ◌↔◌, refl, ap, ap₂, subst, ◌∙◌, Bool, true, false, ◌&&◌, ==_iff, inl, inr, ◌⊎◌,
  Option, none, some, List, [], ◌∷◌, get_elem?,
}
use llvm_mipt.Mercy.Types.Equality.{rank-injective}
use llvm_mipt.Mercy.Types.Interning.{
  TypeRef, builtin_ref, array_ref, function_ref, meta_ref, null_ref, FunctionType, same_type,
  same_types, same_function, find_if, first,
}

same_type_sound : (r q : TypeRef) → same_type r q ≡ true → r ≡ q
unfolding same_type
same_type_sound (builtin_ref j) (builtin_ref k) h =
    ap builtin_ref (rank-injective j k ((==_iff _ _).0 h))
same_type_sound (array_ref i) (array_ref j) h = ap array_ref ((==_iff _ _).0 h)
same_type_sound (function_ref i) (function_ref j) h = ap function_ref ((==_iff _ _).0 h)
same_type_sound meta_ref meta_ref h = refl
same_type_sound null_ref null_ref h = refl
same_type_sound _ _ h = cc

same_type_refl : (r : TypeRef) → same_type r r ≡ true
unfolding same_type
same_type_refl (builtin_ref k) = (==_iff _ _).1 refl
same_type_refl (array_ref i) = (==_iff _ _).1 refl
same_type_refl (function_ref i) = (==_iff _ _).1 refl
same_type_refl meta_ref = refl
same_type_refl null_ref = refl

pub same_type_iff : (r q : TypeRef) → (same_type r q ≡ true) ↔ (r ≡ q)
same_type_iff r q =
    (same_type_sound r q, λ e. subst (λ p. same_type r p ≡ true) e (same_type_refl r))

both : (a b : Bool) → (a && b) ≡ true → (a ≡ true) × (b ≡ true)
both true true h = (refl, refl)
both true false h = cc
both false b h = cc

same_types_sound : (rs qs : List TypeRef) → same_types rs qs ≡ true → rs ≡ qs
unfolding same_types
same_types_sound [] [] h = refl
same_types_sound (r ∷ rs) (q ∷ qs) h =
    ap₂ (◌∷◌) (same_type_sound r q (both _ _ h).0) (same_types_sound rs qs (both _ _ h).1)
same_types_sound _ _ h = cc

same_types_refl : (rs : List TypeRef) → same_types rs rs ≡ true
unfolding same_types
same_types_refl [] = refl
same_types_refl (r ∷ rs) = rw (same_type_refl r) (same_types_refl rs)

pub same_function_sound : (g f : FunctionType) → same_function g f ≡ true → f ≡ g
unfolding same_function
same_function_sound g f h =
    ap₂ (λ r ps. record { ret_ty = r; param_tys = ps }) (same_type_sound _ _ (both _ _ h).0)
      (same_types_sound _ _ (both _ _ h).1)

pub same_function_refl : (g : FunctionType) → same_function g g ≡ true
unfolding same_function
same_function_refl g = rw (same_type_refl g.ret_ty) (same_types_refl g.param_tys)

first-some :
    (b : Bool) (r : Option ℕ) (n : ℕ)
    → first b r ≡ some n
    → ((b ≡ true) × (n ≡ 0)) ⊎ ((m : ℕ) × (r ≡ some m) × (n ≡ suc m))
first-some true r n h = inl (refl, cc)
first-some false none n h = cc
first-some false (some m) n h = inr (m, refl, cc)

first-none : (b : Bool) (r : Option ℕ) → first b r ≡ none → (b ≡ false) × (r ≡ none)
first-none true r h = cc
first-none false none h = (refl, refl)
first-none false (some m) h = cc

module _ {ℓ} {A : Type ℓ} (p : A → Bool) where
  pub find_if-some :
      (xs : List A) (n : ℕ)
      → find_if p xs ≡ some n
      → (x : A) × (get_elem? xs n ≡ some x) × (p x ≡ true)
  unfolding find_if
  find_if-some [] n h = cc
  find_if-some (x ∷ xs) n h = elim (first-some _ _ n h) [
    | inl e ↦ (x, ap (get_elem? (x ∷ xs)) e.1, e.0)
    | inr e ↦ let r = find_if-some xs e.0 e.1 in (r.0, ap (get_elem? (x ∷ xs)) e.2 ∙ r.1, r.2)
  ]

  pub find_if-none :
      (xs : List A) → find_if p xs ≡ none → (n : ℕ) (x : A) → get_elem? xs n ≡ some x → p x ≡ false
  unfolding find_if
  find_if-none [] h n x g = cc
  find_if-none (y ∷ xs) h zero x g = let e : x ≡ y = cc in ap p e ∙ (first-none _ _ h).0
  find_if-none (y ∷ xs) h (suc n) x g = find_if-none xs (first-none _ _ h).1 n x g
