-- ===== src/Mercy/Types.antt =====
-- mercy/src/Type.h and Type.cpp: the types of Mercy by their structure; `null_ty` is `nullptr`. The
-- compiler compares types by address, which `Types.Interning` models.
pub mod Interning
pub mod Equality
pub mod Names
use llvm_mipt.Base.{ℕ, Bool, true, false, ◌&&◌, ◌||◌, Option, none, some, String}

pub data BuiltinKind : Type 0 where
  void_kind bool_kind int8_kind int16_kind int32_kind int64_kind : BuiltinKind
  uint8_kind uint16_kind uint32_kind uint64_kind string_kind : BuiltinKind

-- The parameters of a function type are a list of types.
mutual
  pub data Ty : Type 0 where
    builtin_type : BuiltinKind → Ty
    array_type : Ty → Ty
    function_type : Ty → Tys → Ty
    meta_type null_ty : Ty

  pub data Tys : Type 0 where
    nil : Tys
    cons : Ty → Tys → Tys

abbrev pub void_ty : Ty
void_ty = builtin_type void_kind

abbrev pub bool_ty : Ty
bool_ty = builtin_type bool_kind

abbrev pub int_ty : Ty
int_ty = builtin_type int32_kind

abbrev pub uint_ty : Ty
uint_ty = builtin_type uint32_kind

abbrev pub string_ty : Ty
string_ty = builtin_type string_kind

unfoldable pub is_signed : BuiltinKind → Bool
is_signed int8_kind = true
is_signed int16_kind = true
is_signed int32_kind = true
is_signed int64_kind = true
is_signed _ = false

unfoldable pub is_unsigned : BuiltinKind → Bool
is_unsigned uint8_kind = true
is_unsigned uint16_kind = true
is_unsigned uint32_kind = true
is_unsigned uint64_kind = true
is_unsigned _ = false

unfoldable pub is_integer : BuiltinKind → Bool
unfolding is_signed is_unsigned
is_integer k = is_signed k || is_unsigned k
