-- ===== src/Mercy/Codegen/Typing.antt =====
-- Trees as mercy/src/Sema.cpp types them, and the types of their values in LLVM.
use llvm_mipt.Base.{ℕ, ◌≡◌, refl, ap, Bool, true, false, ◌&&◌, Option, none, some}
use llvm_mipt.Mercy.Types.{
  BuiltinKind, void_kind, bool_kind, int8_kind, int16_kind, int32_kind, int64_kind, uint8_kind,
  uint16_kind, uint32_kind, uint64_kind, string_kind, Ty, builtin_type, array_type, is_integer,
  is_signed, is_unsigned,
}
use llvm_mipt.Mercy.Sema.State.{ok}
use llvm_mipt.Mercy.Sema.Operators.{
  act_on_binary_operator, act_on_unary_operator, act_on_array_subscript,
}
use llvm_mipt.Mercy.Codegen.Api.{Llvm}
use llvm_mipt.Mercy.Codegen.Tree.{
  Typed, integral, text, type_expr, binary, unary, named, call, subscript, no_args, more_args,
  get_ty, is_lvalue,
}
use llvm_mipt.Mercy.Codegen.Types.{builtin_llvm_type}

-- The types that a value can have.
abbrev pub is_data : Ty → Bool
is_data (builtin_type void_kind) = false
is_data (builtin_type _) = true
is_data (array_type t) = is_data t
is_data _ = false

-- The type of both sides of a cast is an integer's.
abbrev pub IsCast : Ty → Ty → Ty → Type 0
IsCast t target from =
    (k : BuiltinKind) × (j : BuiltinKind) × (t ≡ builtin_type k)
    × (target ≡ builtin_type k)
    × (from ≡ builtin_type j)
    × ((is_integer j && is_integer k) ≡ true)

-- The types in the tree are those that `Sema` gives, for literals, declared variables, operators,
-- elements of arrays of builtin types, and casts.
unfoldable pub HasTypes : (ℕ → Option Ty) → Typed → Type 0
HasTypes decls (integral n) = Unit
HasTypes decls (text s) = Unit
HasTypes decls (named name t d) = (i : ℕ) × (d ≡ some i) × (decls i ≡ some t) × (is_data t ≡ true)
HasTypes decls (binary op t x y) =
    HasTypes decls x
    × HasTypes decls y
    × (act_on_binary_operator op (is_lvalue x) (get_ty x) (get_ty y) ≡ ok t)
HasTypes decls (unary op t e) = HasTypes decls e × (act_on_unary_operator op (get_ty e) ≡ ok t)
HasTypes decls (subscript t x i) =
    HasTypes decls x
    × HasTypes decls i
    × (act_on_array_subscript (get_ty x) (get_ty i) ≡ ok t)
    × (k : BuiltinKind) × (t ≡ builtin_type k)
HasTypes decls (call t v (type_expr target) (more_args e no_args) i) =
    HasTypes decls e × IsCast t target (get_ty e)
HasTypes decls _ = false ≡ true

-- Integers and Booleans, and their width.
abbrev pub width : BuiltinKind → Option ℕ
width bool_kind = some 1
width int8_kind = some 8
width uint8_kind = some 8
width int16_kind = some 16
width uint16_kind = some 16
width int32_kind = some 32
width uint32_kind = some 32
width int64_kind = some 64
width uint64_kind = some 64
width void_kind = none
width string_kind = none

pub width-integer : (k : BuiltinKind) → is_integer k ≡ true → (w : ℕ) × (width k ≡ some w)
unfolding is_integer is_signed is_unsigned
width-integer void_kind h = cc
width-integer bool_kind h = cc
width-integer string_kind h = cc
width-integer int8_kind h = (_, refl)
width-integer uint8_kind h = (_, refl)
width-integer int16_kind h = (_, refl)
width-integer uint16_kind h = (_, refl)
width-integer int32_kind h = (_, refl)
width-integer uint32_kind h = (_, refl)
width-integer int64_kind h = (_, refl)
width-integer uint64_kind h = (_, refl)

pub width-llvm :
    (l : Llvm) (k : BuiltinKind) (w : ℕ) → width k ≡ some w → builtin_llvm_type l k ≡ l.get_int_ty w
unfolding builtin_llvm_type
width-llvm l void_kind w h = cc
width-llvm l string_kind w h = cc
width-llvm l bool_kind w h = ap l.get_int_ty cc
width-llvm l int8_kind w h = ap l.get_int_ty cc
width-llvm l uint8_kind w h = ap l.get_int_ty cc
width-llvm l int16_kind w h = ap l.get_int_ty cc
width-llvm l uint16_kind w h = ap l.get_int_ty cc
width-llvm l int32_kind w h = ap l.get_int_ty cc
width-llvm l uint32_kind w h = ap l.get_int_ty cc
width-llvm l int64_kind w h = ap l.get_int_ty cc
width-llvm l uint64_kind w h = ap l.get_int_ty cc
