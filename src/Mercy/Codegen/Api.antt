-- ===== src/Mercy/Codegen/Api.antt =====
-- The calls of LLVM that mercy/src/Codegen.cpp makes, and the ways in which it gives up.
use llvm_mipt.Base.{ℕ, Bool, true, false, Option, none, some, List, String}

pub data BinaryInstr : Type 0 where
  logical_or logical_and or_instr xor_instr and_instr : BinaryInstr
  icmp_eq icmp_ne icmp_sle icmp_ule icmp_sge icmp_uge icmp_slt icmp_ult icmp_sgt icmp_ugt :
      BinaryInstr
  shl_instr ashr_instr lshr_instr add_instr sub_instr mul_instr : BinaryInstr
  sdiv_instr udiv_instr srem_instr urem_instr : BinaryInstr

-- `Code` is the module with the insertion point of the builder.
pub record Llvm : Type 1 where
  pub Typ : Type 0
  pub Value : Type 0
  pub Code : Type 0
  pub get_void_ty : Typ
  pub get_int_ty : ℕ → Typ
  pub get_pointer_to : Typ → Typ
  -- The result, the parameters and whether there can be more of them.
  pub get_function_ty : Typ → List Typ → Bool → Typ
  pub get_type : Value → Typ
  pub get_int32 : ℕ → Value
  pub create_global_string_ptr : String → String → Code → Value × Code
  pub create_load : Typ → Value → Code → Value × Code
  pub create_store : Value → Value → Code → Code
  pub create_binary : BinaryInstr → Value → Value → Code → Value × Code
  pub create_not : Value → Code → Value × Code
  pub create_int_cast : Value → Typ → Bool → Code → Value × Code
  pub create_alloca : Typ → Option Value → String → Code → Value × Code
  pub create_const_gep : Typ → Value → ℕ → Code → Value × Code
  pub create_gep : Typ → Value → Value → Code → Value × Code
  pub create_call : Value → List Value → Code → Value × Code
  pub create_ret : Value → Code → Value × Code
  pub create_ret_void : Code → Value × Code
  pub get_function : String → Code → Option Value
  pub get_or_insert_function : String → Typ → Code → Value × Code
  pub get_or_insert_global : String → Typ → Code → Value × Code
  pub is_empty : Value → Code → Bool
  pub get_arg : Value → ℕ → Value
  pub Block : Type 0
  -- The empty module `top`, with a builder that has no insertion point.
  pub new_module : Code
  pub create_function : String → Typ → Code → Value × Code
  pub get_named_global : String → Code → Option Value
  -- `setInitializer` with a poison value of the type, and private linkage.
  pub set_private_poison : Value → Typ → Code → Code
  pub create_block : Value → String → Code → Block × Code
  pub set_insert_point : Block → Code → Code
  pub create_cond_br : Value → Block → Block → Code → Code
  pub create_unreachable : Code → Code
  -- A new block in the function, which another builder fills.
  pub fill_block : Value → (Code → Code) → Code → Code

-- A failed assert or cast, `llvm_unreachable`, a null pointer that is followed, the one call of
-- `emitError`, and a read past the end of a list.
pub data Refusal : Type 0 where
  failed_assert unreachable null_pointer cannot_print past_the_end : Refusal

pub data Emission {ℓ} (A : Type ℓ) : Type ℓ where
  made : A → Emission A
  refused : Refusal → Emission A

infixl 5 ◌>>=◌
abbrev pub ◌>>=◌ {ℓ κ} : {A : Type ℓ} {B : Type κ} → Emission A → (A → Emission B) → Emission B
made a >>= f = f a
refused r >>= f = refused r

abbrev pub require : Bool → Emission {0} Unit
require true = made tt
require false = refused failed_assert

-- A pointer that is followed.
abbrev pub deref {ℓ} : {A : Type ℓ} → Option A → Emission A
deref none = refused null_pointer
deref (some a) = made a
