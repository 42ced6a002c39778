-- ===== src/Mercy/Codegen/Documented.antt =====
-- What mercy/src/Codegen.cpp relies on of LLVM: the types of the instructions, as hypotheses on the
-- parameter `Llvm`.
use llvm_mipt.Base.{
  List, [], ◌∷◌, get_elem?, false, ℕ, ◌==◌, ◌≡◌, Bool, Option, none, some, String, if◌then◌else◌,
}
use llvm_mipt.Mercy.Codegen.Api.{
  Llvm, BinaryInstr, logical_or, logical_and, icmp_eq, icmp_ne, icmp_sle, icmp_ule, icmp_sge,
  icmp_uge, icmp_slt, icmp_ult, icmp_sgt, icmp_ugt,
}

-- The width of the result on integers of this width, where there can be one.
abbrev pub result_width : BinaryInstr → ℕ → Option ℕ
result_width logical_or w = if w == 1 then some 1 else none
result_width logical_and w = if w == 1 then some 1 else none
result_width icmp_eq w = some 1
result_width icmp_ne w = some 1
result_width icmp_sle w = some 1
result_width icmp_ule w = some 1
result_width icmp_sge w = some 1
result_width icmp_uge w = some 1
result_width icmp_slt w = some 1
result_width icmp_ult w = some 1
result_width icmp_sgt w = some 1
result_width icmp_ugt w = some 1
result_width _ w = some w

-- `HasType v t`: the value has the type. `Valid c`: each instruction of the code has operands of the
-- types that it takes.
pub record Documented (l : Llvm) : Type 1 where
  pub HasType : Llvm.Value l → Llvm.Typ l → Type 0
  pub Valid : Llvm.Code l → Type 0
  pub int32_typed : (n : ℕ) → HasType (l.get_int32 n) (l.get_int_ty 32)
  pub string_typed :
      (s name : String) (c : l.Code)
      → Valid c
      → let x = l.create_global_string_ptr s name c in
        HasType x.0 (l.get_pointer_to (l.get_int_ty 8)) × Valid x.1
  pub load_typed :
      (t : l.Typ) (p : l.Value) (c : l.Code)
      → HasType p (l.get_pointer_to t)
      → Valid c
      → let x = l.create_load t p c in HasType x.0 t × Valid x.1
  pub store_typed :
      (t : l.Typ) (v p : l.Value) (c : l.Code)
      → HasType v t
      → HasType p (l.get_pointer_to t)
      → Valid c
      → Valid (l.create_store v p c)
  pub binary_typed :
      (i : BinaryInstr) (w r : ℕ) (u v : l.Value) (c : l.Code)
      → result_width i w ≡ some r
      → HasType u (l.get_int_ty w)
      → HasType v (l.get_int_ty w)
      → Valid c
      → let x = l.create_binary i u v c in HasType x.0 (l.get_int_ty r) × Valid x.1
  pub not_typed :
      (w : ℕ) (v : l.Value) (c : l.Code)
      → HasType v (l.get_int_ty w)
      → Valid c
      → let x = l.create_not v c in HasType x.0 (l.get_int_ty w) × Valid x.1
  pub int_cast_typed :
      (w r : ℕ) (s : Bool) (v : l.Value) (c : l.Code)
      → HasType v (l.get_int_ty w)
      → Valid c
      → let x = l.create_int_cast v (l.get_int_ty r) s c in HasType x.0 (l.get_int_ty r) × Valid x.1
  pub gep_typed :
      (t : l.Typ) (w : ℕ) (p v : l.Value) (c : l.Code)
      → HasType p (l.get_pointer_to t)
      → HasType v (l.get_int_ty w)
      → Valid c
      → let x = l.create_gep t p v c in HasType x.0 (l.get_pointer_to t) × Valid x.1

-- The types of the instructions of functions, as hypotheses on the parameter `Llvm`.
-- `Returns c t`: what is inserted into the code next is in a function that returns `t`.
-- `BlockReturns b t`: the block is in such a function.
pub record DocumentedFunctions (l : Llvm) (d : Documented l) : Type 1 where
  pub Returns : l.Code → l.Typ → Type 0
  pub BlockReturns : l.Block → l.Typ → Type 0
  pub alloca_typed :
      (t : l.Typ) (name : String) (c : l.Code)
      → d.Valid c
      → let x = l.create_alloca t none name c in d.HasType x.0 (l.get_pointer_to t) × d.Valid x.1
  pub get_type_typed : (t : l.Typ) (v : l.Value) → d.HasType v t → l.get_type v ≡ t
  -- The value has the type that the function returns.
  pub ret_typed :
      (t : l.Typ) (v : l.Value) (c : l.Code)
      → d.HasType v t
      → Returns c t
      → d.Valid c
      → d.Valid (l.create_ret v c).1
  pub ret_void_typed :
      (c : l.Code) → Returns c l.get_void_ty → d.Valid c → d.Valid (l.create_ret_void c).1
  pub block_typed :
      (f : l.Value) (name : String) (c : l.Code) → d.Valid c → d.Valid (l.create_block f name c).1
  pub block_returns :
      (f : l.Value) (r : l.Typ) (ts : List l.Typ) (name : String) (c : l.Code)
      → d.HasType f (l.get_function_ty r ts false)
      → BlockReturns (l.create_block f name c).0 r
  pub insert_point_typed : (b : l.Block) (c : l.Code) → d.Valid c → d.Valid (l.set_insert_point b c)
  pub insert_point_returns :
      (b : l.Block) (r : l.Typ) (c : l.Code) → BlockReturns b r → Returns (l.set_insert_point b c) r
  pub function_typed :
      (name : String) (t : l.Typ) (c : l.Code)
      → d.Valid c
      → let x = l.get_or_insert_function name t c in d.HasType x.0 t × d.Valid x.1
  pub arg_typed :
      (f : l.Value) (r t : l.Typ) (ts : List l.Typ) (k : ℕ)
      → d.HasType f (l.get_function_ty r ts false)
      → get_elem? ts k ≡ some t
      → d.HasType (l.get_arg f k) t
  pub call_typed :
      (f v : l.Value) (r t : l.Typ) (c : l.Code)
      → d.HasType f (l.get_function_ty r (t ∷ []) false)
      → d.HasType v t
      → d.Valid c
      → d.Valid (l.create_call f (v ∷ []) c).1
  pub unreachable_typed : (c : l.Code) → d.Valid c → d.Valid (l.create_unreachable c)
  pub cond_br_typed :
      (v : l.Value) (a b : l.Block) (c : l.Code)
      → d.HasType v (l.get_int_ty 1)
      → d.Valid c
      → d.Valid (l.create_cond_br v a b c)
  -- The instructions of expressions and statements are inserted where the builder is, and leave it
  -- there.
  pub string_stays :
      (s name : String) (c : l.Code) (r : l.Typ)
      → Returns c r
      → Returns (l.create_global_string_ptr s name c).1 r
  pub load_stays :
      (t : l.Typ) (p : l.Value) (c : l.Code) (r : l.Typ)
      → Returns c r
      → Returns (l.create_load t p c).1 r
  pub store_stays :
      (v p : l.Value) (c : l.Code) (r : l.Typ) → Returns c r → Returns (l.create_store v p c) r
  pub binary_stays :
      (i : BinaryInstr) (u v : l.Value) (c : l.Code) (r : l.Typ)
      → Returns c r
      → Returns (l.create_binary i u v c).1 r
  pub not_stays :
      (v : l.Value) (c : l.Code) (r : l.Typ) → Returns c r → Returns (l.create_not v c).1 r
  pub int_cast_stays :
      (v : l.Value) (t : l.Typ) (s : Bool) (c : l.Code) (r : l.Typ)
      → Returns c r
      → Returns (l.create_int_cast v t s c).1 r
  pub gep_stays :
      (t : l.Typ) (p v : l.Value) (c : l.Code) (r : l.Typ)
      → Returns c r
      → Returns (l.create_gep t p v c).1 r
  pub alloca_stays :
      (t : l.Typ) (name : String) (c : l.Code) (r : l.Typ)
      → Returns c r
      → Returns (l.create_alloca t none name c).1 r
  pub ret_stays :
      (v : l.Value) (c : l.Code) (r : l.Typ) → Returns c r → Returns (l.create_ret v c).1 r
  pub ret_void_stays : (c : l.Code) (r : l.Typ) → Returns c r → Returns (l.create_ret_void c).1 r

-- The same types for code that is inserted into a function that returns `r`.
abbrev pub returning :
    (l : Llvm) (d : Documented l) → DocumentedFunctions l d → l.Typ → Documented l
returning l d fd r = record {
  HasType = d.HasType;
  Valid = λ c. d.Valid c × fd.Returns c r;
  int32_typed = d.int32_typed;
  string_typed = λ s name c w.
      let x = d.string_typed s name c w.0 in (x.0, (x.1, fd.string_stays s name c r w.1));
  load_typed =
      λ t p c h w. let x = d.load_typed t p c h w.0 in (x.0, (x.1, fd.load_stays t p c r w.1));
  store_typed = λ t v p c h g w. (d.store_typed t v p c h g w.0, fd.store_stays v p c r w.1);
  binary_typed = λ i w k u v c e h g y.
      let x = d.binary_typed i w k u v c e h g y.0 in (x.0, (x.1, fd.binary_stays i u v c r y.1));
  not_typed = λ w v c h y. let x = d.not_typed w v c h y.0 in (x.0, (x.1, fd.not_stays v c r y.1));
  int_cast_typed = λ w k s v c h y.
      let x = d.int_cast_typed w k s v c h y.0 in
      (x.0, (x.1, fd.int_cast_stays v (l.get_int_ty k) s c r y.1));
  gep_typed = λ t w p v c h g y.
      let x = d.gep_typed t w p v c h g y.0 in (x.0, (x.1, fd.gep_stays t p v c r y.1));
}
