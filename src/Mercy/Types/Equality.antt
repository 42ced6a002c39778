-- ===== src/Mercy/Types/Equality.antt =====
-- Equality of Mercy types by their structure.
use llvm_mipt.Base.{
  ℕ, ◌≡◌, ◌↔◌, refl, ap, ap₂, sym, subst, ◌∙◌, Bool, true, false, ◌&&◌, ◌==◌, ==_iff, if◌then◌else◌,
}
use llvm_mipt.Mercy.Types.{
  BuiltinKind, Ty, Tys, builtin_type, array_type, function_type, meta_type, null_ty, nil, cons,
  void_kind, bool_kind, int8_kind, int16_kind, int32_kind, int64_kind, uint8_kind, uint16_kind,
  uint32_kind, uint64_kind, string_kind,
}

-- The enumerator's value.
abbrev pub rank : BuiltinKind → ℕ
rank void_kind = 0
rank bool_kind = 1
rank int8_kind = 2
rank int16_kind = 3
rank int32_kind = 4
rank int64_kind = 5
rank uint8_kind = 6
rank uint16_kind = 7
rank uint32_kind = 8
rank uint64_kind = 9
rank string_kind = 10

abbrev of_rank : ℕ → BuiltinKind
of_rank n =
    if n == 0
    then void_kind
    else if n == 1
    then bool_kind
    else if n == 2
    then int8_kind
    else if n == 3
    then int16_kind
    else if n == 4
    then int32_kind
    else if n == 5
    then int64_kind
    else if n == 6
    then uint8_kind
    else if n == 7
    then uint16_kind
    else if n == 8
    then uint32_kind
    else if n == 9
    then uint64_kind
    else string_kind

of_rank-rank : (k : BuiltinKind) → of_rank (rank k) ≡ k
of_rank-rank void_kind = refl
of_rank-rank _ = refl

pub rank-injective : (j k : BuiltinKind) → rank j ≡ rank k → j ≡ k
rank-injective j k h = sym (of_rank-rank j) ∙ ap of_rank h ∙ of_rank-rank k

unfoldable mutual
  pub ty_eq : Ty → Ty → Bool
  ty_eq (builtin_type j) (builtin_type k) = rank j == rank k
  ty_eq (array_type s) (array_type t) = ty_eq s t
  ty_eq (function_type r ps) (function_type q qs) = ty_eq r q && tys_eq ps qs
  ty_eq meta_type meta_type = true
  ty_eq null_ty null_ty = true
  ty_eq _ _ = false

  pub tys_eq : Tys → Tys → Bool
  tys_eq nil nil = true
  tys_eq (cons t ts) (cons u us) = ty_eq t u && tys_eq ts us
  tys_eq _ _ = false

&&-true : (a b : Bool) → (a && b) ≡ true → (a ≡ true) × (b ≡ true)
&&-true true true h = (refl, refl)
&&-true true false h = cc
&&-true false b h = cc

mutual
  unfolding ty_eq tys_eq

  ty_eq_sound : (s t : Ty) → ty_eq s t ≡ true → s ≡ t
  ty_eq_sound (builtin_type j) (builtin_type k) h =
      ap builtin_type (rank-injective j k ((==_iff _ _).0 h))
  ty_eq_sound (array_type s) (array_type t) h = ap array_type (ty_eq_sound s t h)
  ty_eq_sound (function_type r ps) (function_type q qs) h =
      ap₂ function_type (ty_eq_sound r q (&&-true _ _ h).0) (tys_eq_sound ps qs (&&-true _ _ h).1)
  ty_eq_sound meta_type meta_type h = refl
  ty_eq_sound null_ty null_ty h = refl
  ty_eq_sound _ _ h = cc

  tys_eq_sound : (ss ts : Tys) → tys_eq ss ts ≡ true → ss ≡ ts
  tys_eq_sound nil nil h = refl
  tys_eq_sound (cons s ss) (cons t ts) h =
      ap₂ cons (ty_eq_sound s t (&&-true _ _ h).0) (tys_eq_sound ss ts (&&-true _ _ h).1)
  tys_eq_sound _ _ h = cc

mutual
  unfolding ty_eq tys_eq

  ty_eq_refl : (t : Ty) → ty_eq t t ≡ true
  ty_eq_refl (builtin_type k) = (==_iff _ _).1 refl
  ty_eq_refl (array_type t) = ty_eq_refl t
  ty_eq_refl (function_type r ps) = rw (ty_eq_refl r) (tys_eq_refl ps)
  ty_eq_refl meta_type = refl
  ty_eq_refl null_ty = refl

  tys_eq_refl : (ts : Tys) → tys_eq ts ts ≡ true
  tys_eq_refl nil = refl
  tys_eq_refl (cons t ts) = rw (ty_eq_refl t) (tys_eq_refl ts)

pub ty_eq_iff : (s t : Ty) → (ty_eq s t ≡ true) ↔ (s ≡ t)
ty_eq_iff s t = (ty_eq_sound s t, λ e. subst (λ u. ty_eq s u ≡ true) e (ty_eq_refl s))
