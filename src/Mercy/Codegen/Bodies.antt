-- ===== src/Mercy/Codegen/Bodies.antt =====
-- The code of the bodies of functions that mercy/src/Sema.cpp has typed.
use llvm_mipt.Base.{
  ℕ, ◌≡◌, refl, sym, ap, ◌∙◌, subst, false, Bool-cases, inl, inr, Option, none, some, List, [], ◌∷◌,
  String,
}
use llvm_mipt.Mercy.Types.{Ty, bool_kind, void_ty}
use llvm_mipt.Mercy.Types.Equality.{ty_eq, ty_eq_iff}
use llvm_mipt.Mercy.Codegen.Api.{Llvm, Emission, made}
use llvm_mipt.Mercy.Codegen.Tree.{Typed, get_ty}
use llvm_mipt.Mercy.Codegen.Types.{get_llvm_type, builtin_llvm_type}
use llvm_mipt.Mercy.Codegen.Values.{as_rvalue}
use llvm_mipt.Mercy.Codegen.Emit.{emit, set_addr, emit_variable_decl, emit_return_stmt}
use llvm_mipt.Mercy.Codegen.Documented.{Documented, DocumentedFunctions, returning}
use llvm_mipt.Mercy.Codegen.FunctionTyping.{set_decl, BodyTyped, DomainTyped}
use llvm_mipt.Mercy.Codegen.Typing.{HasTypes}
use llvm_mipt.Mercy.Codegen.Typed.{Declared, as_rvalue-Gives, emit-Gives, known_type}
use llvm_mipt.Mercy.Codegen.Functions.{
  TypedStmt, expr_stmt, var_stmt, ret_stmt, TypedDomain, on_all, on_rest, on_custom, emit_body,
  emit_domain,
}
use llvm_mipt.Mercy.Codegen.Addresses.{Declared-set_addr}

module _ (l : Llvm) (d : Documented l) (fd : DocumentedFunctions l d) where
  open l use {Value, Code}

  -- The code is made and valid.
  abbrev pub MakesValid : Emission Code → Type 0
  MakesValid r = (c : Code) × (r ≡ made c) × d.Valid c

  -- The same, and what comes next is in a function that returns this type.
  abbrev pub MakesIn : l.Typ → Emission Code → Type 0
  MakesIn r x = (c : Code) × (x ≡ made c) × (d.Valid c × fd.Returns c r)

  -- The type of nothing.
  pub void_type :
      (t : Ty) (r : l.Typ) → t ≡ void_ty → get_llvm_type l t ≡ made r → r ≡ l.get_void_ty
  unfolding get_llvm_type builtin_llvm_type
  void_type t r e g = let x : made l.get_void_ty ≡ made r = rw e at g in cc

  module _ (r : l.Typ) (decls : ℕ → Option Ty) (addr : ℕ → Option Value)
      (h : Declared l d decls addr) where
    -- The value of an expression.
    rvalue_made :
        (e : Typed) (c : Code)
        → HasTypes decls e
        → d.Valid c × fd.Returns c r
        → (a : Option Value × Code) × (v : Value) × (c' : Code) × (ty : l.Typ) × (emit l addr e c
            ≡ made a)
          × (as_rvalue l e a ≡ made (some v, c'))
          × (get_llvm_type l (get_ty e) ≡ made ty)
          × d.HasType v ty
          × (d.Valid c' × fd.Returns c' r)
    rvalue_made e c t w =
        let dr = returning l d fd r in
        let (x, c1, t1, e1, g1, h1, w1) = emit-Gives l dr decls addr h e t c w in
        let (y, c2, t2, e2, g2, h2, w2) = as_rvalue-Gives l dr e x c1 t1 g1 h1 w1 in
        ((some x, c1), y, c2, t2, e1, e2, g2, h2, w2)

    emit_return_stmt-made :
        (t : Ty) (e : Typed) (c : Code)
        → HasTypes decls e
        → get_ty e ≡ t
        → get_llvm_type l t ≡ made r
        → d.Valid c × fd.Returns c r
        → (x : Option Value × Code) × (emit_return_stmt l addr t e c ≡ made x)
          × (d.Valid x.1 × fd.Returns x.1 r)
    unfolding emit_return_stmt
    emit_return_stmt-made t e c ht same gr w =
        let (a, v, c', ty, e1, e2, g, hv, w') = rvalue_made e c ht w in
        elim (Bool-cases (ty_eq t void_ty)) [
          | inl q ↦
              let x = l.create_ret_void c' in
              let nothing = void_type t r ((ty_eq_iff t void_ty).0 q) gr in
              (
                (some x.0, x.1),
                rw (e1, e2, q) refl,
                (
                  fd.ret_void_typed c' (subst (fd.Returns c') nothing w'.1) w'.0,
                  fd.ret_void_stays c' r w'.1,
                ),
              )
          | inr q ↦
              let x = l.create_ret v c' in
              let both : made ty ≡ made r = sym g ∙ ap (get_llvm_type l) same ∙ gr in
              let one : ty ≡ r = cc in
              (
                (some x.0, x.1),
                rw (e1, e2, q) refl,
                (
                  fd.ret_typed r v c' (subst (d.HasType v) one hv) w'.1 w'.0,
                  fd.ret_stays v c' r w'.1,
                ),
              )
        ]

    emit_variable_decl-made :
        (id : String) (i : ℕ) (e : Typed) (c : Code)
        → HasTypes decls e
        → d.Valid c × fd.Returns c r
        → (x : (ℕ → Option Value) × Code) × (emit_variable_decl l addr false id i e c ≡ made x)
          × Declared l d (set_decl i (some (get_ty e)) decls) x.0
          × (d.Valid x.1 × fd.Returns x.1 r)
    unfolding emit_variable_decl
    emit_variable_decl-made id i e c ht w =
        let (a, v, c', ty, e1, e2, g, hv, w') = rvalue_made e c ht w in
        let slot = l.create_alloca (l.get_type v) none id c' in
        let (p, w2) = fd.alloca_typed (l.get_type v) id c' w'.0 in
        let p' = subst (λ t. d.HasType slot.0 (l.get_pointer_to t)) (fd.get_type_typed ty v hv) p in
        (
          (set_addr l addr i slot.0, l.create_store v slot.0 slot.1),
          rw (e1, e2) refl,
          Declared-set_addr l d decls addr i (get_ty e) ty slot.0 h g p',
          (
            d.store_typed ty v slot.0 slot.1 hv p' w2,
            fd.store_stays v slot.0 slot.1 r (fd.alloca_stays (l.get_type v) id c' r w'.1),
          ),
        )

  emit_body-MakesIn :
      (ret : Ty) (r : l.Typ) (ss : List TypedStmt) (decls : ℕ → Option Ty) (addr : ℕ → Option Value)
      (c : Code)
      → get_llvm_type l ret ≡ made r
      → Declared l d decls addr
      → BodyTyped ret decls ss
      → d.Valid c × fd.Returns c r
      → MakesIn r (emit_body l ss addr c)
  unfolding emit_body
  emit_body-MakesIn ret r [] decls addr c g h t w =
      let nothing = void_type ret r t g in
      (
        _,
        refl,
        (fd.ret_void_typed c (subst (fd.Returns c) nothing w.1) w.0, fd.ret_void_stays c r w.1),
      )
  emit_body-MakesIn ret r (expr_stmt e ∷ ss) decls addr c g h t w =
      let (x, c1, t1, e1, g1, h1, w1) = emit-Gives l (returning l d fd r) decls addr h e t.0 c w in
      let (c2, e2, w2) = emit_body-MakesIn ret r ss decls addr c1 g h t.1 w1 in (c2, rw e1 e2, w2)
  emit_body-MakesIn ret r (var_stmt is_ref id i e ∷ ss) decls addr c g h t w =
      let (x, e1, h1, w1) = emit_variable_decl-made r decls addr h id i e c t.1 w in
      let (c2, e2, w2) =
        emit_body-MakesIn ret r ss (set_decl i (some (get_ty e)) decls) x.0 x.1 g h1 t.2 w1 in
      (c2, rw (t.0, e1) e2, w2)
  emit_body-MakesIn ret r (ret_stmt t e ∷ ss) decls addr c g h ht w =
      let gt : get_llvm_type l t ≡ made r = ap (get_llvm_type l) ht.0 ∙ g in
      let (x, e1, w1) = emit_return_stmt-made r decls addr h t e c ht.1 ht.2 gt w in
      (x.1, rw e1 refl, w1)

  pub emit_domain-MakesIn :
      (ret : Ty) (r : l.Typ) (ts : List l.Typ) (func : Value) (dom : TypedDomain)
      (ss : List TypedStmt) (decls : ℕ → Option Ty) (addr : ℕ → Option Value) (c : Code)
      → get_llvm_type l ret ≡ made r
      → d.HasType func (l.get_function_ty r ts false)
      → Declared l d decls addr
      → DomainTyped decls dom
      → BodyTyped ret decls ss
      → d.Valid c × fd.Returns c r
      → MakesIn r (emit_domain l func dom ss addr c)
  unfolding emit_domain
  emit_domain-MakesIn ret r ts func on_all ss decls addr c g hf h t b w =
      emit_body-MakesIn ret r ss decls addr c g h b w
  emit_domain-MakesIn ret r ts func on_rest ss decls addr c g hf h t b w =
      emit_body-MakesIn ret r ss decls addr c g h b w
  emit_domain-MakesIn ret r ts func (on_custom e) ss decls addr c g hf h t b w =
      let (a, v, c', ty, e1, e2, gv, hv, w') = rvalue_made r decls addr h e c t.0 w in
      let one = known_type l d (get_ty e) bool_kind 1 ty t.1 refl gv in
      let true_bb = l.create_block func "domain" c' in
      let next_bb = l.create_block func "next" true_bb.1 in
      let branched = l.create_cond_br v true_bb.0 next_bb.0 next_bb.1 in
      let w2 =
        fd.cond_br_typed v true_bb.0 next_bb.0 next_bb.1 (subst (d.HasType v) one hv)
          (fd.block_typed func "next" true_bb.1 (fd.block_typed func "domain" c' w'.0)) in
      let (c3, e3, w3) =
        emit_body-MakesIn ret r ss decls addr (l.set_insert_point true_bb.0 branched) g h b (
          fd.insert_point_typed true_bb.0 branched w2,
          fd.insert_point_returns true_bb.0 r branched (fd.block_returns func r ts "domain" c' hf),
        ) in
      (
        _,
        rw (e1, e2, e3) refl,
        (
          fd.insert_point_typed next_bb.0 c3 w3.0,
          fd.insert_point_returns next_bb.0 r c3 (fd.block_returns func r ts "next" true_bb.1 hf),
        ),
      )
