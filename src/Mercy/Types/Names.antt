-- ===== src/Mercy/Types/Names.antt =====
-- `Type::print` of mercy/src/Type.cpp. `none` is `llvm_unreachable`, or a
-- null pointer that is followed.
use llvm_mipt.Base.{
  ◌≡◌, refl, Bool, true, false, ◌&&◌, Option, none, some, List, [], ◌∷◌, ◌++◌, String, arith,
}
use llvm_mipt.Mercy.Types.{
  BuiltinKind, Ty, Tys, builtin_type, array_type, function_type, meta_type, null_ty, nil, cons,
  void_kind, bool_kind, int8_kind, int16_kind, int32_kind, int64_kind, uint8_kind, uint16_kind,
  uint32_kind, uint64_kind, string_kind,
}

-- The `switch` has no case for `String`.
unfoldable pub get_builtin_type_name : BuiltinKind → Option String
get_builtin_type_name void_kind = some "void"
get_builtin_type_name bool_kind = some "bool"
get_builtin_type_name int8_kind = some "int8"
get_builtin_type_name int16_kind = some "int16"
get_builtin_type_name int32_kind = some "int32"
get_builtin_type_name int64_kind = some "int64"
get_builtin_type_name uint8_kind = some "uint8"
get_builtin_type_name uint16_kind = some "uint16"
get_builtin_type_name uint32_kind = some "uint32"
get_builtin_type_name uint64_kind = some "uint64"
get_builtin_type_name string_kind = none

-- The texts in the order in which they go to the stream.
abbrev pub then_print : Option (List String) → Option (List String) → Option (List String)
then_print none q = none
then_print (some a) none = none
then_print (some a) (some b) = some (a ++ b)

unfoldable mutual
  pub print : Ty → Option (List String)
  print (builtin_type k) = elim (get_builtin_type_name k) [ none ↦ none | some s ↦ some (s ∷ []) ]
  print (array_type t) =
      then_print (some ("array_type(" ∷ [])) (then_print (print t) (some (")" ∷ [])))
  print (function_type r ps) =
      then_print (some ("function_type(" ∷ []))
        (then_print (print r) (then_print (print_params ps) (some (")" ∷ []))))
  print meta_type = some ("MetaType" ∷ [])
  print null_ty = none

  pub print_params : Tys → Option (List String)
  print_params nil = some []
  print_params (cons t ts) = then_print (some (", " ∷ [])) (then_print (print t) (print_params ts))

unfoldable mutual
  -- No part of the type is the string type or null.
  pub is_printable : Ty → Bool
  is_printable (builtin_type string_kind) = false
  is_printable (builtin_type _) = true
  is_printable (array_type t) = is_printable t
  is_printable (function_type r ps) = is_printable r && is_printable_params ps
  is_printable meta_type = true
  is_printable null_ty = false

  pub is_printable_params : Tys → Bool
  is_printable_params nil = true
  is_printable_params (cons t ts) = is_printable t && is_printable_params ts

abbrev pub is_printed : Option (List String) → Bool
is_printed none = false
is_printed (some s) = true

is_printed-then :
    (p q : Option (List String)) → is_printed (then_print p q) ≡ (is_printed p && is_printed q)
is_printed-then none q = refl
is_printed-then (some a) none = refl
is_printed-then (some a) (some b) = refl

mutual
  unfolding print print_params is_printable is_printable_params get_builtin_type_name

  printed : (t : Ty) → is_printed (print t) ≡ is_printable t
  printed (builtin_type void_kind) = refl
  printed (builtin_type _) = refl
  printed (array_type t) = ground (arith, printed t)
  printed (function_type r ps) = ground (arith, printed r, printed_params ps)
  printed meta_type = refl
  printed null_ty = refl

  printed_params : (ts : Tys) → is_printed (print_params ts) ≡ is_printable_params ts
  printed_params nil = refl
  printed_params (cons t ts) = ground (arith, printed t, printed_params ts)

-- A type prints exactly if neither the string type nor a null pointer is a part of it; the others
-- reach the `llvm_unreachable` behind the `switch` or follow the null pointer.
pub is_printed-print : (t : Ty) → is_printed (print t) ≡ is_printable t
is_printed-print t = printed t
