-- ===== src/Mercy/Codegen/Typed.antt =====
-- The values that mercy/src/Codegen.cpp emits for trees that mercy/src/Sema.cpp has typed.
use llvm_mipt.Base.{
  ℕ, ◌≡◌, refl, sym, ap, ◌∙◌, subst, Bool, true, false, Option, none, some, [], ◌∷◌, Bool-cases,
  inl, inr, if◌then◌else◌,
}
use llvm_mipt.Base.Word.{to_u32}
use llvm_mipt.Mercy.Types.{
  BuiltinKind, bool_kind, Ty, builtin_type, array_type, is_integer, is_signed,
}
use llvm_mipt.Mercy.Ast.{BinOpKind}
use llvm_mipt.Mercy.Sema.State.{GenericValue}
use llvm_mipt.Mercy.Sema.Typing.{accepted, accepted-act_on_binary_operator}
use llvm_mipt.Mercy.Codegen.Api.{Llvm, made}
use llvm_mipt.Mercy.Codegen.Tree.{
  Typed, integral, text, type_expr, binary, unary, named, call, subscript, Args, no_args, more_args,
  Instance, get_ty, is_lvalue,
}
use llvm_mipt.Mercy.Codegen.Types.{builtin_llvm_type, get_llvm_type}
use llvm_mipt.Mercy.Codegen.Values.{Result, as_rvalue, emit_operator, is_assign, binary_instr}
use llvm_mipt.Mercy.Codegen.Calls.{emit_call, call_type}
use llvm_mipt.Mercy.Codegen.Emit.{emit}
use llvm_mipt.Mercy.Codegen.Documented.{Documented}
use llvm_mipt.Mercy.Codegen.Typing.{is_data, HasTypes, width, width-integer, width-llvm}
use llvm_mipt.Mercy.Codegen.Table.{Fits, rule-Fits}
use llvm_mipt.Mercy.Codegen.Operands.{
  binary_operands, and-both, assigned, unary_operand, subscript_operands,
}

module _ (l : Llvm) (d : Documented l) where
  open l use {Typ, Value, Code}

  -- The code is made and valid, and its value has the type of the expression; of an lvalue it is the
  -- address.
  abbrev pub Gives : Bool → Ty → Result l → Type 0
  Gives address t r =
      (v : Value) × (c : Code) × (ty : Typ) × (r ≡ made (some v, c))
      × (get_llvm_type l t ≡ made ty)
      × d.HasType v (if address then l.get_pointer_to ty else ty)
      × d.Valid c

  pub as_rvalue-Gives :
      (e : Typed) (v : Value) (c : Code) (ty : Typ)
      → get_llvm_type l (get_ty e) ≡ made ty
      → d.HasType v (if is_lvalue e then l.get_pointer_to ty else ty)
      → d.Valid c
      → Gives false (get_ty e) (as_rvalue l e (some v, c))
  unfolding as_rvalue
  as_rvalue-Gives e v c ty g h w = by_lvalue (is_lvalue e) refl h
    where
      by_lvalue :
          (b : Bool)
          → is_lvalue e ≡ b
          → d.HasType v (if b then l.get_pointer_to ty else ty)
          → Gives false (get_ty e) (as_rvalue l e (some v, c))
      by_lvalue true q h =
          let x = d.load_typed ty v c h w in (_, _, ty, rw (q, g, as_rvalue) refl, g, x.0, x.1)
      by_lvalue false q h = (v, c, ty, rw (q, as_rvalue) refl, g, h, w)

  -- The type in LLVM of an expression whose type is known.
  pub known_type :
      (t : Ty) (k : BuiltinKind) (w : ℕ) (ty : Typ)
      → t ≡ builtin_type k
      → width k ≡ some w
      → get_llvm_type l t ≡ made ty
      → ty ≡ l.get_int_ty w
  unfolding get_llvm_type
  known_type t k w ty e h g =
      let x : made (builtin_llvm_type l k) ≡ made ty = rw e at g in
      let y : builtin_llvm_type l k ≡ ty = cc in sym y ∙ width-llvm l k w h

  emit_operator-Gives :
      (op : BinOpKind) (t operand : Ty) (k : BuiltinKind) (x y : Value) (tx ty : Typ) (c : Code)
      → operand ≡ builtin_type k
      → Fits op k t
      → get_llvm_type l operand ≡ made tx
      → d.HasType x tx
      → get_llvm_type l operand ≡ made ty
      → d.HasType y ty
      → d.Valid c
      → Gives false t (emit_operator l op t operand (some x) (some y) c)
  unfolding emit_operator get_llvm_type
  emit_operator-Gives op t operand k x y tx ty c e (i, r, w, n, f, ins, wk, res, wr) gx hx gy hy v =
      let hx' = subst (d.HasType x) (known_type operand k w tx e wk gx) hx in
      let hy' = subst (d.HasType y) (known_type operand k w ty e wk gy) hy in
      let out = d.binary_typed i w n x y c res hx' hy' v in
      (
        _,
        _,
        l.get_int_ty n,
        rw (f, e, ins, emit_operator) refl,
        rw f (ap made (width-llvm l r n wr)),
        out.0,
        out.1,
      )

  -- The declared variables have addresses of their types.
  abbrev pub Declared : (ℕ → Option Ty) → (ℕ → Option Value) → Type 0
  Declared decls addr =
      (i : ℕ) (t : Ty)
      → decls i ≡ some t
      → is_data t ≡ true
      → (v : Value) × (ty : Typ) × (addr i ≡ some v)
        × (get_llvm_type l t ≡ made ty)
        × d.HasType v (l.get_pointer_to ty)

  emit_operator-assign :
      (op : BinOpKind) (t operand : Ty) (k : BuiltinKind) (x y : Value) (c : Code)
      → operand ≡ builtin_type k
      → t ≡ builtin_type k
      → binary_instr op k k ≡ none
      → emit_operator l op t operand (some x) (some y) c ≡ made (some y, l.create_store y x c)
  unfolding emit_operator
  emit_operator-assign op t operand k x y c e f ins = rw (e, f, ins, emit_operator) refl

  emit_call-cast :
      (target : Ty) (k : BuiltinKind) (u : Ty) (g : GenericValue) (args : Args)
      (i : Option Instance) (v : Value) (c : Code) (w : ℕ)
      → target ≡ builtin_type k
      → builtin_llvm_type l k ≡ l.get_int_ty w
      → emit_call l (type_expr target) u g args i (some v ∷ []) c
        ≡ (let x = l.create_int_cast v (l.get_int_ty w) (is_signed k) c in made (some x.0, x.1))
  unfolding emit_call call_type
  emit_call-cast target k u g args i v c w e same = rw (e, same) refl

  array_llvm :
      (t : Ty) (k : BuiltinKind) (ty : Typ)
      → t ≡ array_type (builtin_type k)
      → get_llvm_type l t ≡ made ty
      → ty ≡ l.get_pointer_to (builtin_llvm_type l k)
  unfolding get_llvm_type
  array_llvm t k ty e g =
      let x : made (l.get_pointer_to (builtin_llvm_type l k)) ≡ made ty = rw e at g in cc

  module _ (decls : ℕ → Option Ty) (addr : ℕ → Option Value) (declared : Declared decls addr) where
    -- For a tree that `Sema` has typed, of literals, declared variables, operators, elements of arrays
    -- of builtin types, and casts, the code is made: no assert fails, nothing unreachable is reached
    -- and no null pointer is followed. Each instruction has operands of the types that it takes, and
    -- the value has the type in LLVM of the expression, or is the address of such a value where the
    -- expression is an lvalue. The variables have addresses of their types, and the types of LLVM's
    -- instructions are a hypothesis, `Documented`.
    pub emit-Gives :
        (e : Typed)
        → HasTypes decls e
        → (c : Code) → d.Valid c
        → Gives (is_lvalue e) (get_ty e) (emit l addr e c)
    unfolding emit HasTypes get_ty is_lvalue get_llvm_type builtin_llvm_type
    emit-Gives (integral n) t c v = (_, c, l.get_int_ty 32, refl, refl, d.int32_typed (to_u32 n), v)
    emit-Gives (text str) t c v =
        let x = d.string_typed str "" c v in
        (_, _, l.get_pointer_to (l.get_int_ty 8), refl, refl, x.0, x.1)
    emit-Gives (type_expr u) t c v = cc
    emit-Gives (named name u i) (j, e, f, full) c v =
        let (a, ty, x, g, h) = declared j u f full in (a, c, ty, rw (e, x) refl, g, h, v)
    emit-Gives (unary op u e) (te, ok_u) c v =
        let (x, cx, tx, ex, gx, hx, wx) = emit-Gives e te c v in
        let (y, cy, ty, ey, gy, hy, wy) = as_rvalue-Gives e x cx tx gx hx wx in
        let (is_bool, res) = unary_operand op (get_ty e) u ok_u in
        let out =
          d.not_typed 1 y cy
            (subst (d.HasType y) (known_type (get_ty e) bool_kind 1 ty is_bool refl gy) hy) wy in
        (_, _, l.get_int_ty 1, rw (ex, ey) refl, rw res refl, out.0, out.1)
    emit-Gives (subscript u x i) (tx, ti, ok_u, k, e) c v =
        let (x1, c1, t1, e1, g1, h1, w1) = emit-Gives x tx c v in
        let (x2, c2, t2, e2, g2, h2, w2) = as_rvalue-Gives x x1 c1 t1 g1 h1 w1 in
        let (x3, c3, t3, e3, g3, h3, w3) = emit-Gives i ti c2 w2 in
        let (x4, c4, t4, e4, g4, h4, w4) = as_rvalue-Gives i x3 c3 t3 g3 h3 w3 in
        let (arr, j, idx, int) = subscript_operands (get_ty x) (get_ty i) u ok_u in
        let (w, m) = width-integer j int in
        let out =
          d.gep_typed (builtin_llvm_type l k) w x2 x4 c4
            (subst (d.HasType x2) (array_llvm (get_ty x) k t2 (arr ∙ ap array_type e) g2) h2)
            (subst (d.HasType x4) (known_type (get_ty i) j w t4 idx m g4) h4) w4 in
        (_, _, builtin_llvm_type l k, rw (e1, e2, e3, e4, e) refl, rw e refl, out.0, out.1)
    emit-Gives (binary op u x y) (tx, ty, ok_u) c v =
        let (k, lt, rt, rul) = binary_operands op (is_lvalue x) (get_ty x) (get_ty y) u (
          sym (accepted-act_on_binary_operator op (is_lvalue x) (get_ty x) (get_ty y))
          ∙ ap accepted ok_u) in
        let (x1, c1, t1, e1, g1, h1, w1) = emit-Gives x tx c v in
        elim (Bool-cases (is_assign op)) [
          | inl a ↦
              let (lv, res, ins) = assigned op (is_lvalue x) k u a rul in
              let (y1, c2, t2, e2, g2, h2, w2) = emit-Gives y ty c1 w1 in
              let (y2, c3, t3, e3, g3, h3, w3) = as_rvalue-Gives y y1 c2 t2 g2 h2 w2 in
              let stored : made t1 ≡ made t3 = sym g1 ∙ ap (get_llvm_type l) (lt ∙ sym rt) ∙ g3 in
              let same : t1 ≡ t3 = cc in
              (
                y2,
                _,
                t3,
                rw (e1, a, e2, e3) (emit_operator-assign op u (get_ty x) k x1 y2 c3 lt res ins),
                ap (get_llvm_type l) (res ∙ sym rt) ∙ g3,
                h3,
                d.store_typed t3 y2 x1 c3 h3
                    (subst (λ r. d.HasType x1 (l.get_pointer_to r)) same (rw lv at h1)) w3,
              )
          | inr a ↦
              let (x2, c2, t2, e2, g2, h2, w2) = as_rvalue-Gives x x1 c1 t1 g1 h1 w1 in
              let (y1, c3, t3, e3, g3, h3, w3) = emit-Gives y ty c2 w2 in
              let (y2, c4, t4, e4, g4, h4, w4) = as_rvalue-Gives y y1 c3 t3 g3 h3 w3 in
              rw (e1, a, e2, e3, e4)
                (emit_operator-Gives op u (get_ty x) k x2 y2 t2 t4 c4 lt
                  (rule-Fits op (is_lvalue x) k u a rul) g2 h2
                  (ap (get_llvm_type l) (lt ∙ sym rt) ∙ g4) h4 w4)
        ]
    emit-Gives (call u v (type_expr target) (more_args e no_args) i) (te, (k, j, a, b, f, ints)) c
          w =
        let (x, cx, tx, ex, gx, hx, wx) = emit-Gives e te c w in
        let (y, cy, ty, ey, gy, hy, wy) = as_rvalue-Gives e x cx tx gx hx wx in
        let (int_j, int_k) = and-both (is_integer j) (is_integer k) ints in
        let (from, m) = width-integer j int_j in
        let (to, n) = width-integer k int_k in
        let out =
          d.int_cast_typed from to (is_signed k) y cy
            (subst (d.HasType y) (known_type (get_ty e) j from ty f m gy) hy) wy in
        let same = width-llvm l k to n in
        (
          _,
          _,
          l.get_int_ty to,
          rw (ex, ey) (emit_call-cast target k u v _ i y cy to b same),
          rw a (ap made same),
          out.0,
          out.1,
        )
    emit-Gives (call u v (integral n) args i) t c w = cc
    emit-Gives (call u v (text str) args i) t c w = cc
    emit-Gives (call u v (binary op b x y) args i) t c w = cc
    emit-Gives (call u v (unary op b x) args i) t c w = cc
    emit-Gives (call u v (named name b q) args i) t c w = cc
    emit-Gives (call u v (call b q g bs ii) args i) t c w = cc
    emit-Gives (call u v (subscript b x y) args i) t c w = cc
    emit-Gives (call u v (type_expr target) no_args i) t c w = cc
    emit-Gives (call u v (type_expr target) (more_args e (more_args f fs)) i) t c w = cc
