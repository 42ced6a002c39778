-- ===== src/Mercy/Codegen/Tests/Builder.antt =====
-- A builder for tests: its values are their types, and it notes the types that have to be equal.
use llvm_mipt.Base.{
  ℕ, zero, suc, ◌≡◌, ◌∙◌, sym, refl, ap, ap₂, true, Option, none, some, List, [], ◌∷◌, get_elem?,
}
use llvm_mipt.Mercy.Codegen.Api.{Llvm, BinaryInstr}
use llvm_mipt.Mercy.Codegen.Documented.{Documented, DocumentedFunctions, result_width}

pub data TestType : Type 0 where
  void : TestType
  int : ℕ → TestType
  pointer : TestType → TestType
  function : TestType → (ℕ → TestType) → TestType

abbrev pub or_void : Option ℕ → TestType
or_void none = void
or_void (some w) = int w

abbrev pub operate : BinaryInstr → TestType → TestType
operate i (int w) = or_void (result_width i w)
operate i t = void

abbrev pub nth : List TestType → ℕ → TestType
nth [] k = void
nth (t ∷ ts) zero = t
nth (t ∷ ts) (suc k) = nth ts k

abbrev pub param : TestType → ℕ → TestType
param (function r ps) k = ps k
param t k = void

-- The code: the type that the function of the insertion point returns, and the types that had to be
-- equal in the instructions so far.
pub record Checked : Type 0 where
  pub current : TestType
  pub due : List (TestType × TestType)

abbrev pub AllEqual : List (TestType × TestType) → Type 0
AllEqual [] = Unit
AllEqual (q ∷ qs) = (q.0 ≡ q.1) × AllEqual qs

abbrev pub check : TestType → TestType → Checked → Checked
check t u c = record c { due = (t, u) ∷ c.due }

abbrev pub result_of : TestType → TestType
result_of (function r ps) = r
result_of t = t

abbrev pub typed_values : Llvm
typed_values = record {
  Typ = TestType;
  Value = TestType;
  Code = Checked;
  get_void_ty = void;
  get_int_ty = int;
  get_pointer_to = pointer;
  get_function_ty = λ r ps b. function r (nth ps);
  get_type = λ v. v;
  get_int32 = λ n. int 32;
  create_global_string_ptr = λ s name c. (pointer (int 8), c);
  create_load = λ t p c. (t, check p (pointer t) c);
  create_store = λ v p c. check p (pointer v) c;
  create_binary = λ i u v c. (operate i u, check u v c);
  create_not = λ v c. (v, c);
  create_int_cast = λ v t s c. (t, c);
  create_alloca = λ t n name c. (pointer t, c);
  create_const_gep = λ t p n c. (pointer t, c);
  create_gep = λ t p n c. (pointer t, check p (pointer t) c);
  create_call = λ f args c. (f, check f (function (result_of f) (nth args)) c);
  create_ret = λ v c. (void, check v c.current c);
  create_ret_void = λ c. (void, check void c.current c);
  get_function = λ name c. none;
  get_or_insert_function = λ name t c. (t, c);
  get_or_insert_global = λ name t c. (pointer t, c);
  is_empty = λ f c. true;
  get_arg = param;
  Block = TestType;
  new_module = record { current = void; due = [] };
  create_function = λ name t c. (t, c);
  get_named_global = λ name c. none;
  set_private_poison = λ v t c. c;
  create_block = λ f name c. (result_of f, c);
  set_insert_point = λ b c. record c { current = b };
  create_cond_br = λ v a b c. check v (int 1) c;
  create_unreachable = λ c. c;
  fill_block = λ f body c. body c;
}

abbrev pub empty_code : Checked
empty_code = record { current = void; due = [] }

abbrev pub documented : Documented typed_values
documented = record {
  HasType = λ v t. v ≡ t;
  Valid = λ c. AllEqual c.due;
  int32_typed = λ n. refl;
  string_typed = λ s name c w. (refl, w);
  load_typed = λ t p c h w. (refl, (h, w));
  store_typed = λ t v p c h g w. (g ∙ ap pointer (sym h), w);
  binary_typed = λ i w r u v c e h g x. (ap (operate i) h ∙ ap or_void e, (h ∙ sym g, x));
  not_typed = λ w v c h x. (h, x);
  int_cast_typed = λ w r s v c h x. (refl, x);
  gep_typed = λ t w p v c h g x. (refl, (h, x));
}

pub nth-get_elem? :
    (ts : List TestType) (k : ℕ) (t : TestType) → get_elem? ts k ≡ some t → nth ts k ≡ t
nth-get_elem? [] k t e = cc
nth-get_elem? (u ∷ ts) zero t e = cc
nth-get_elem? (u ∷ ts) (suc k) t e = nth-get_elem? ts k t e

pub call_agrees :
    (f r : TestType) (v t : TestType)
    → f ≡ function r (nth (t ∷ []))
    → v ≡ t
    → f ≡ function (result_of f) (nth (v ∷ []))
call_agrees f r v t h g = h ∙ ap₂ (λ x y. function x (nth (y ∷ []))) (sym (ap result_of h)) (sym g)

abbrev pub documented_functions : DocumentedFunctions typed_values documented
documented_functions = record {
  Returns = λ c t. c.current ≡ t;
  BlockReturns = λ b t. b ≡ t;
  alloca_typed = λ t name c w. (refl, w);
  get_type_typed = λ t v h. h;
  ret_typed = λ t v c h n w. (h ∙ sym n, w);
  ret_void_typed = λ c n w. (sym n, w);
  block_typed = λ f name c w. w;
  block_returns = λ f r ts name c h. ap result_of h;
  insert_point_typed = λ b c w. w;
  insert_point_returns = λ b r c h. h;
  function_typed = λ name t c w. (refl, w);
  arg_typed = λ f r t ts k h e. ap (λ g. param g k) h ∙ nth-get_elem? ts k t e;
  call_typed = λ f v r t c h g w. (call_agrees f r v t h g, w);
  unreachable_typed = λ c w. w;
  cond_br_typed = λ v a b c h w. (h, w);
  string_stays = λ s name c r h. h;
  load_stays = λ t p c r h. h;
  store_stays = λ v p c r h. h;
  binary_stays = λ i u v c r h. h;
  not_stays = λ v c r h. h;
  int_cast_stays = λ v t s c r h. h;
  gep_stays = λ t p v c r h. h;
  alloca_stays = λ t name c r h. h;
  ret_stays = λ v c r h. h;
  ret_void_stays = λ c r h. h;
}
