-- ===== src/Mercy/Types/Interning.antt =====
-- `ArrayType::get` and `FunctionType::get` of mercy/src/Type.cpp: the compiler keeps one object of
-- each array and function type and compares types by address. An object is a `TypeRef`, which
-- holds the place of an array or function type in the store it lives in.
mod Get
pub mod Canonical
pub mod Insert
pub mod Address
use llvm_mipt.Base.{
  ℕ, suc, ◌==◌, Bool, true, false, ◌&&◌, Option, none, some, List, [], ◌∷◌, ◌++◌, length,
  if◌then◌else◌,
}
use llvm_mipt.Mercy.Types.{BuiltinKind}
use llvm_mipt.Mercy.Types.Equality.{rank}

pub data TypeRef : Type 0 where
  builtin_ref : BuiltinKind → TypeRef
  array_ref function_ref : ℕ → TypeRef
  meta_ref null_ref : TypeRef

-- The return type and the parameters.
pub record FunctionType : Type 0 where
  pub ret_ty : TypeRef
  pub param_tys : List TypeRef

-- `ArrayTypes` by the element types, and `FuncTypes`, both in the order of insertion.
pub record TypeStore : Type 0 where
  pub array_types : List TypeRef
  pub func_types : List FunctionType

-- The comparison of two addresses.
unfoldable pub same_type : TypeRef → TypeRef → Bool
same_type (builtin_ref j) (builtin_ref k) = rank j == rank k
same_type (array_ref i) (array_ref j) = i == j
same_type (function_ref i) (function_ref j) = i == j
same_type meta_ref meta_ref = true
same_type null_ref null_ref = true
same_type _ _ = false

unfoldable pub same_types : List TypeRef → List TypeRef → Bool
same_types [] [] = true
same_types (r ∷ rs) (q ∷ qs) = same_type r q && same_types rs qs
same_types _ _ = false

-- The lambda `eq`, of the arguments of `get` and a stored type.
unfoldable pub same_function : FunctionType → FunctionType → Bool
same_function g f = same_type f.ret_ty g.ret_ty && same_types f.param_tys g.param_tys

-- The place after one element, which passes the test or does not.
abbrev pub first : Bool → Option ℕ → Option ℕ
first true rest = some 0
first false none = none
first false (some n) = some (suc n)

-- The place of the first element that passes the test.
unfoldable pub find_if {ℓ} : {A : Type ℓ} → (A → Bool) → List A → Option ℕ
find_if p [] = none
find_if p (x ∷ xs) = first (p x) (find_if p xs)

unfoldable pub get_array : TypeRef → TypeStore → TypeRef × TypeStore
get_array t s = elim (find_if (same_type t) s.array_types) [
  | some n ↦ (array_ref n, s)
  | none ↦ (array_ref (length s.array_types), record s { array_types = s.array_types ++ t ∷ [] })
]

unfoldable pub get_function : TypeRef → List TypeRef → TypeStore → TypeRef × TypeStore
get_function result params s =
    let f : FunctionType = record { ret_ty = result; param_tys = params } in
    elim (find_if (same_function f) s.func_types) [
      | some n ↦ (function_ref n, s)
      | none ↦
          (function_ref (length s.func_types), record s { func_types = s.func_types ++ f ∷ [] })
    ]
