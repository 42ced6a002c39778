-- ===== src/Jit/Builder.antt =====
-- The calls of LLVM that asm/src/qrisc-llvm-sim.cpp makes, and the ways in which it gives up.
use llvm_mipt.Base.{ℕ, Bool, true, false, Option, none, some, String}

pub data BinaryOp : Type 0 where
  add_bin and_bin or_bin xor_bin sub_bin mul_bin udiv_bin urem_bin : BinaryOp

pub data Predicate : Type 0 where
  eq_pred ne_pred sgt_pred sge_pred slt_pred sle_pred ult_pred : Predicate

-- `Code` is the module with the builder's insertion point. The registers are the elements of
-- `__reg_file`, and the two calls are those of `__load` and `__store`.
pub record Builder : Type 1 where
  pub Code : Type 0
  pub Value : Type 0
  pub Block : Type 0
  -- The module with `main`, which has no block yet.
  pub start : Code
  pub get_int32 : ℕ → Value
  pub create_load : ℕ → Code → Value × Code
  pub create_store : Value → ℕ → Code → Code
  pub create_binary : BinaryOp → Value → Value → Code → Value × Code
  pub create_shl : Value → Value → Code → Value × Code
  pub create_icmp : Predicate → Value → Value → Code → Value × Code
  pub create_zext : Value → Code → Value × Code
  pub call_load : Value → Code → Value × Code
  pub call_store : Value → Value → Code → Code
  pub create_block : String → Code → Block × Code
  pub set_insert_point : Block → Code → Code
  pub create_br : Block → Code → Code
  pub create_cond_br : Value → Block → Block → Code → Code
  pub create_ret_void : Code → Code

-- `exit(1)` at a jump, a failed assert, and a block that is a null pointer.
pub data Refusal : Type 0 where
  unsupported_jump failed_assert null_block : Refusal

pub data Emission {ℓ} (A : Type ℓ) : Type ℓ where
  made : A → Emission A
  refused : Refusal → Emission A

infixl 5 ◌>>=◌
abbrev pub ◌>>=◌ {ℓ κ} : {A : Type ℓ} {B : Type κ} → Emission A → (A → Emission B) → Emission B
made a >>= f = f a
refused e >>= f = refused e

abbrev pub or_refuse {ℓ} : {A : Type ℓ} → Option A → Refusal → Emission A
or_refuse none e = refused e
or_refuse (some a) e = made a

abbrev pub check {ℓ} : {A : Type ℓ} → Bool → Refusal → A → Emission A
check true e a = made a
check false e a = refused e
