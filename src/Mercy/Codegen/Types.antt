-- ===== src/Mercy/Codegen/Types.antt =====
-- `getLLVMType` of mercy/src/Type.cpp, and the choice of the function that prints a value
-- (mercy/src/Codegen.cpp).
use llvm_mipt.Base.{false, List, [], ◌∷◌, String}
use llvm_mipt.Mercy.Types.{
  BuiltinKind, void_kind, bool_kind, int8_kind, int16_kind, int32_kind, int64_kind, uint8_kind,
  uint16_kind, uint32_kind, uint64_kind, string_kind, Ty, builtin_type, array_type, function_type,
  meta_type, null_ty, Tys, nil, cons,
}
use llvm_mipt.Mercy.Codegen.Api.{
  Llvm, Emission, made, refused, ◌>>=◌, failed_assert, unreachable, null_pointer,
}

module _ (l : Llvm) where
  open l use {Typ, get_void_ty, get_int_ty, get_pointer_to, get_function_ty}

  -- `BuiltinType::getLLVMType`
  unfoldable pub builtin_llvm_type : BuiltinKind → Typ
  builtin_llvm_type void_kind = get_void_ty
  builtin_llvm_type bool_kind = get_int_ty 1
  builtin_llvm_type int8_kind = get_int_ty 8
  builtin_llvm_type uint8_kind = get_int_ty 8
  builtin_llvm_type int16_kind = get_int_ty 16
  builtin_llvm_type uint16_kind = get_int_ty 16
  builtin_llvm_type int32_kind = get_int_ty 32
  builtin_llvm_type uint32_kind = get_int_ty 32
  builtin_llvm_type int64_kind = get_int_ty 64
  builtin_llvm_type uint64_kind = get_int_ty 64
  builtin_llvm_type string_kind = get_pointer_to (get_int_ty 8)

  unfoldable mutual
    pub get_llvm_type : Ty → Emission Typ
    get_llvm_type (builtin_type k) = made (builtin_llvm_type k)
    get_llvm_type (array_type t) = get_llvm_type t >>= λ e. made (get_pointer_to e)
    get_llvm_type (function_type r ps) =
        get_llvm_types ps >>= λ ts. get_llvm_type r >>= λ t. made (get_function_ty t ts false)
    get_llvm_type meta_type = refused failed_assert
    get_llvm_type null_ty = refused null_pointer

    pub get_llvm_types : Tys → Emission (List Typ)
    get_llvm_types nil = made []
    get_llvm_types (cons t ts) = get_llvm_type t >>= λ u. get_llvm_types ts >>= λ us. made (u ∷ us)

  -- The parameter's type, the postfix of the name and the format.
  abbrev pub print_format : BuiltinKind → Emission (Typ × String × String)
  print_format bool_kind = made (get_int_ty 32, "i32", "%d\n")
  print_format int8_kind = made (get_int_ty 32, "i32", "%d\n")
  print_format int16_kind = made (get_int_ty 32, "i32", "%d\n")
  print_format int32_kind = made (get_int_ty 32, "i32", "%d\n")
  print_format uint8_kind = made (get_int_ty 32, "u32", "%u\n")
  print_format uint16_kind = made (get_int_ty 32, "u32", "%u\n")
  print_format uint32_kind = made (get_int_ty 32, "u32", "%u\n")
  print_format int64_kind = made (get_int_ty 64, "i64", "%ld\n")
  print_format uint64_kind = made (get_int_ty 64, "u64", "%lu\n")
  print_format string_kind = made (builtin_llvm_type string_kind, "str", "%s\n")
  print_format void_kind = refused unreachable
