-- ===== src/Mercy/Types/Interning/Insert.antt =====
-- What `ArrayType::get` and `FunctionType::get` do to the store.
use llvm_mipt.Base.{
  ℕ, zero, suc, ◌≡◌, ◌≢◌, ◌⊎◌, refl, sym, ap, subst, ◌∙◌, true, false, inl, inr, none, some, List,
  [], ◌∷◌, ◌++◌, length, get_elem?, get_elem?-lt, get_elem?-append, get_elem?-append_self,
  Option-cases,
}
use llvm_mipt.Mercy.Types.{Ty, Tys, array_type, function_type}
use llvm_mipt.Mercy.Types.Interning.{
  TypeRef, array_ref, function_ref, FunctionType, TypeStore, same_type, same_function, find_if,
  get_array, get_function,
}
use llvm_mipt.Mercy.Types.Interning.Get.{
  same_type_iff, same_function_sound, same_function_refl, find_if-some, find_if-none,
}
use llvm_mipt.Mercy.Types.Interning.Canonical.{
  NoDup, IsInterned, Refers, AllRefer, Extends, Refers-Extends, AllRefer-Extends,
}

module _ {ℓ} {A : Type ℓ} where
  get_elem?-append_inv :
      (xs : List A) (v x : A) (n : ℕ)
      → get_elem? (xs ++ v ∷ []) n ≡ some x
      → (get_elem? xs n ≡ some x) ⊎ ((n ≡ length xs) × (x ≡ v))
  get_elem?-append_inv [] v x zero h = inr (refl, cc)
  get_elem?-append_inv [] v x (suc n) h = cc
  get_elem?-append_inv (y ∷ ys) v x zero h = inl h
  get_elem?-append_inv (y ∷ ys) v x (suc n) h = elim (get_elem?-append_inv ys v x n h) [
    | inl e ↦ inl e
    | inr e ↦ inr (ap suc e.0, e.1)
  ]

  get_elem?-append_some :
      (xs ys : List A) (n : ℕ) (x : A) → get_elem? xs n ≡ some x → get_elem? (xs ++ ys) n ≡ some x
  get_elem?-append_some xs ys n x h = get_elem?-append xs ys n (get_elem?-lt xs n x h) ∙ h

  append-NoDup :
      (xs : List A) (v : A) → NoDup xs → ((n : ℕ) → get_elem? xs n ≢ some v) → NoDup (xs ++ v ∷ [])
  append-NoDup xs v h new i j x a b =
      both (get_elem?-append_inv xs v x i a) (get_elem?-append_inv xs v x j b)
    where
      both :
          (get_elem? xs i ≡ some x) ⊎ ((i ≡ length xs) × (x ≡ v))
          → (get_elem? xs j ≡ some x) ⊎ ((j ≡ length xs) × (x ≡ v))
          → i ≡ j
      both (inl p) (inl q) = h i j x p q
      both (inl p) (inr q) = absurd (new i (p ∙ ap some q.1))
      both (inr p) (inl q) = absurd (new j (q ∙ ap some p.1))
      both (inr p) (inr q) = p.0 ∙ sym q.0

-- What `get` promises of its answer and of the store it leaves.
pub record Interns (s : TypeStore) (t : Ty) (out : TypeRef × TypeStore) : Type 0 where
  pub refers : Refers out.1 t out.0
  pub extends : Extends s out.1
  pub interned : IsInterned out.1

same : (s : TypeStore) → Extends s s
same s = record { arrays = λ n e h. h; functions = λ n f h. h }

appended_array : (s : TypeStore) (r : TypeRef) → TypeStore
appended_array s r = record s { array_types = s.array_types ++ r ∷ [] }

found_array :
    (s : TypeStore) (r : TypeRef) (n : ℕ)
    → find_if (same_type r) s.array_types ≡ some n
    → get_array r s ≡ (array_ref n, s)
unfolding get_array
found_array s r n e = rw (e, get_array)

new_array :
    (s : TypeStore) (r : TypeRef)
    → find_if (same_type r) s.array_types ≡ none
    → get_array r s ≡ (array_ref (length s.array_types), appended_array s r)
unfolding get_array appended_array
new_array s r e = rw (e, get_array)

absent :
    (s : TypeStore) (r : TypeRef)
    → find_if (same_type r) s.array_types ≡ none
    → (n : ℕ) → get_elem? s.array_types n ≢ some r
absent s r e n g =
    let h : same_type r r ≡ false = find_if-none (same_type r) s.array_types e n r g in
    let k : same_type r r ≡ true = (same_type_iff r r).1 refl in cc

appended_array-Interns :
    (s : TypeStore) (t : Ty) (r : TypeRef)
    → IsInterned s
    → Refers s t r
    → find_if (same_type r) s.array_types ≡ none
    → Interns s (array_type t) (array_ref (length s.array_types), appended_array s r)
unfolding appended_array Refers
appended_array-Interns s t r h a e =
    let grows : Extends s (appended_array s r) = record {
      arrays = λ n x g. get_elem?-append_some s.array_types (r ∷ []) n x g;
      functions = λ n f g. g;
    } in
    record {
      refers = (
        length s.array_types,
        r,
        refl,
        get_elem?-append_self s.array_types r,
        Refers-Extends s (appended_array s r) grows t r a,
      );
      extends = grows;
      interned = record {
        arrays = append-NoDup s.array_types r h.arrays (absent s r e);
        functions = h.functions;
      };
    }

-- For an address that stands for an element type, `ArrayType::get` gives an address that stands
-- for the array type; the old addresses stand for what they did, and no entry is double.
pub get_array-Interns :
    (s : TypeStore) (t : Ty) (r : TypeRef)
    → IsInterned s
    → Refers s t r
    → Interns s (array_type t) (get_array r s)
unfolding Refers
get_array-Interns s t r h a = elim (Option-cases (find_if (same_type r) s.array_types)) [
  | inl e ↦
      subst (Interns s (array_type t)) (sym (new_array s r e)) (appended_array-Interns s t r h a e)
  | inr (n, e) ↦
      let (x, g, k) = find_if-some (same_type r) s.array_types n e in
      subst (Interns s (array_type t)) (sym (found_array s r n e)) (record {
        refers = (n, r, refl, g ∙ ap some (sym ((same_type_iff r x).0 k)), a);
        extends = same s;
        interned = h;
      })
]

abbrev stored : TypeRef → List TypeRef → FunctionType
stored r ps = record { ret_ty = r; param_tys = ps }

appended_function : (s : TypeStore) (f : FunctionType) → TypeStore
appended_function s f = record s { func_types = s.func_types ++ f ∷ [] }

found_function :
    (s : TypeStore) (r : TypeRef) (ps : List TypeRef) (n : ℕ)
    → find_if (same_function (stored r ps)) s.func_types ≡ some n
    → get_function r ps s ≡ (function_ref n, s)
unfolding get_function
found_function s r ps n e = rw (e, get_function)

new_function :
    (s : TypeStore) (r : TypeRef) (ps : List TypeRef)
    → find_if (same_function (stored r ps)) s.func_types ≡ none
    → get_function r ps s ≡ (function_ref (length s.func_types), appended_function s (stored r ps))
unfolding get_function appended_function
new_function s r ps e = rw (e, get_function)

absent_function :
    (s : TypeStore) (f : FunctionType)
    → find_if (same_function f) s.func_types ≡ none
    → (n : ℕ) → get_elem? s.func_types n ≢ some f
absent_function s f e n g =
    let h : same_function f f ≡ false = find_if-none (same_function f) s.func_types e n f g in
    let k : same_function f f ≡ true = same_function_refl f in cc

appended_function-Interns :
    (s : TypeStore) (t : Ty) (ts : Tys) (r : TypeRef) (ps : List TypeRef)
    → IsInterned s
    → Refers s t r
    → AllRefer s ts ps
    → find_if (same_function (stored r ps)) s.func_types ≡ none
    → Interns s
        (function_type t ts)
        (function_ref (length s.func_types), appended_function s (stored r ps))
unfolding appended_function Refers
appended_function-Interns s t ts r ps h a al e =
    let f = stored r ps in
    let u = appended_function s f in
    let grows : Extends s u = record {
      arrays = λ n x g. g;
      functions = λ n x g. get_elem?-append_some s.func_types (f ∷ []) n x g;
    } in
    record {
      refers = (
        length s.func_types,
        f,
        refl,
        get_elem?-append_self s.func_types f,
        Refers-Extends s u grows t r a,
        AllRefer-Extends s u grows ts ps al,
      );
      extends = grows;
      interned = record {
        arrays = h.arrays;
        functions = append-NoDup s.func_types f h.functions (absent_function s f e);
      };
    }

-- For addresses that stand for a return type and for parameter types, `FunctionType::get` gives an
-- address that stands for the function type; the old addresses stand for what they did, and no
-- entry is double.
pub get_function-Interns :
    (s : TypeStore) (t : Ty) (ts : Tys) (r : TypeRef) (ps : List TypeRef)
    → IsInterned s
    → Refers s t r
    → AllRefer s ts ps
    → Interns s (function_type t ts) (get_function r ps s)
unfolding Refers
get_function-Interns s t ts r ps h a al =
    elim (Option-cases (find_if (same_function (stored r ps)) s.func_types)) [
      | inl e ↦
          subst (Interns s (function_type t ts)) (sym (new_function s r ps e))
            (appended_function-Interns s t ts r ps h a al e)
      | inr (n, e) ↦
          let (x, g, k) = find_if-some (same_function (stored r ps)) s.func_types n e in
          let p = same_function_sound (stored r ps) x k in
          subst (Interns s (function_type t ts)) (sym (found_function s r ps n e)) (record {
            refers = (n, stored r ps, refl, g ∙ ap some p, a, al);
            extends = same s;
            interned = h;
          })
    ]
