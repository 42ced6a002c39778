-- ===== src/Jit/Straight.antt =====
-- The compiled code of instructions without branches (asm/src/qrisc-llvm-sim.cpp) beside the
-- interpreter of asm/src/qrisc-sim.cpp.
use llvm_mipt.Base.{
  ℕ, bit_or, bit_and, ◌%◌, ◌/◌, ◌^◌, ◌<◌, ◌≡◌, refl, sym, ap, ◌∙◌, subst, fun_ext, arith, true,
  false, ◌==◌, some, lt→ltb, Bool-cases, inl, inr, ==_iff,
}
use llvm_mipt.Base.Word.{add32, shl32}
use llvm_mipt.Instr.Opcodes.{r_type}
use llvm_mipt.Instr.{Instr, reg_zero, reg_pc, r1, r2, imm, get_type, is_i}
use llvm_mipt.Instr.Decode.{r1-lt, r2-lt, r3_field}
use llvm_mipt.Sim.State.{Machine, Outcome, ok, stop, ◌>>=◌, or_assert, update, get_pc}
use llvm_mipt.Sim.State.{write_reg as interpreter_write}
use llvm_mipt.Sim.Exec.{r_op, i_op, pure}
use llvm_mipt.Sim.Device.{load_value, store_value}
use llvm_mipt.Sim.Device.{handle_load as interpreter_load, handle_store as interpreter_store}
use llvm_mipt.Sim.Invariant.Parts.{IsValid, Safe, IsWord}
use llvm_mipt.Sim.Invariant.Devices.{imm-Safe}
use llvm_mipt.Jit.Builder.{Builder, BinaryOp, add_bin, and_bin, or_bin, Emission, made}
use llvm_mipt.Jit.Emit.{
  read_reg, write_reg, emit_r, emit_i, emit_lui, emit_addr, emit_load, emit_store,
}
use llvm_mipt.Jit.Semantics.{meaning, Semantics}
use llvm_mipt.Jit.Support.{imm-some}
use llvm_mipt.Jit.AtPc.{at_pc, load-at_pc, store-at_pc}

-- The immediate and that it is a word.
imm_word : (ins : Instr) → is_i (get_type ins) ≡ true → (i : ℕ) × (imm ins ≡ some i) × (i < 2 ^ 32)
imm_word ins h =
    let (i, e) = imm-some ins h in (i, e, subst (λ o. Safe IsWord (or_assert o)) e (imm-Safe ins h))

update_swap :
    (f : ℕ → ℕ) (idx n z : ℕ)
    → (idx == reg_pc) ≡ false
    → update (update f reg_pc z) idx n ≡ update (update f idx n) reg_pc z
update_swap f idx n z h = fun_ext λ k. ground arith

module _ (b : Builder) (s : Semantics b) (z : ℕ) (m0 : Machine) where
  open b use {Code, Value}

  -- The code runs to where the interpreter comes, when it does.
  abbrev pub Tracks : Emission Code → Outcome Machine → Type 0
  Tracks e (ok m) = (c : Code) × (e ≡ made c) × s.Runs c m0 (at_pc z m)
  Tracks e (stop r) = Unit

  -- A value and the code that computes it in the state of `m`.
  abbrev pub Reads : Emission (Value × Code) → ℕ → Machine → Type 0
  Reads e n m = (x : Value × Code) × (e ≡ made x) × s.Gives m0 x.0 n × s.Runs x.1 m0 (at_pc z m)

  module _ (m : Machine) (v : IsValid m) (c : Code) (h : s.Runs c m0 (at_pc z m)) where
    read_reg-Reads : (idx : ℕ) → idx < 32 → Reads (read_reg b idx (get_pc m) c) (m.reg idx) m
    unfolding read_reg
    read_reg-Reads idx l = elim (Bool-cases (idx == 0)) [
      | inl e ↦
          let same : 0 ≡ m.reg idx = sym (ap m.reg ((==_iff idx 0).0 e) ∙ v.zero) in
          (
            (b.get_int32 0, c),
            rw (lt→ltb idx 32 l, e) refl,
            subst (s.Gives m0 (b.get_int32 0)) same (s.int32_gives m0 0 (omega arith)),
            h,
          )
      | inr e ↦ elim (Bool-cases (idx == 31)) [
        | inl p ↦
            let same : get_pc m ≡ m.reg idx = ap m.reg (sym ((==_iff idx 31).0 p)) in
            (
              (b.get_int32 (get_pc m), c),
              rw (lt→ltb idx 32 l, e, p) refl,
              subst (s.Gives m0 (b.get_int32 (get_pc m))) same
                  (s.int32_gives m0 (get_pc m) (v.regs reg_pc)),
              h,
            )
        | inr p ↦
            let r = s.load_runs idx c m0 (at_pc z m) h in
            let same : update m.reg reg_pc z idx ≡ m.reg idx = rw p refl in
            (
              b.create_load idx c,
              rw (lt→ltb idx 32 l, e, p) refl,
              subst (s.Gives m0 _) same r.0,
              r.1,
            )
      ]
    ]

  module _ (m : Machine) (c : Code) (h : s.Runs c m0 (at_pc z m)) where
    write_reg-Tracks :
        (idx n : ℕ) (u : Value)
        → idx < 32
        → s.Gives m0 u n
        → Tracks (write_reg b idx u c) (interpreter_write idx n m)
    unfolding write_reg interpreter_write
    write_reg-Tracks idx n u l g = elim (Bool-cases (idx == 31)) [
      | inl p ↦ rw (lt→ltb idx 32 l, p, interpreter_write) tt
      | inr p ↦ elim (Bool-cases (idx == 0)) [
        | inl e ↦ rw (lt→ltb idx 32 l, p, e, interpreter_write) (c, refl, h)
        | inr e ↦
            rw (lt→ltb idx 32 l, p, e, interpreter_write)
              (
                b.create_store u idx c,
                refl,
                subst (λ f. s.Runs (b.create_store u idx c) m0 (record m { reg = f }))
                    (update_swap m.reg idx n z p) (s.store_runs u n idx c m0 (at_pc z m) g h),
              )
      ]
    ]

  module _ (m : Machine) (c : Code) (h : s.Runs c m0 (at_pc z m)) where
    -- A binary instruction and the write of its result.
    binary-Tracks :
        (op : BinaryOp) (idx i j : ℕ) (x y : Value)
        → idx < 32
        → s.Gives m0 x i
        → s.Gives m0 y j
        → let w = b.create_binary op x y c in
          Tracks (write_reg b idx w.0 w.1) (meaning op i j >>= λ n. interpreter_write idx n m)
    binary-Tracks op idx i j x y l g k = by_value (meaning op i j) refl
      where
        by_value :
            (o : Outcome ℕ)
            → meaning op i j ≡ o
            → let w = b.create_binary op x y c in
              Tracks (write_reg b idx w.0 w.1) (o >>= λ n. interpreter_write idx n m)
        by_value (stop r) e = tt
        by_value (ok n) e =
            let r = s.binary_runs op x y i j n c m0 (at_pc z m) g k e h in
            write_reg-Tracks m _ r.1 idx n _ l r.0

  module _ (m : Machine) (v : IsValid m) (c : Code) (h : s.Runs c m0 (at_pc z m))
      (ins : Instr) where
    pub emit_r-Tracks :
        (op : BinaryOp)
        → get_type ins ≡ r_type
        → Tracks (emit_r b op ins (get_pc m) c) (r_op (meaning op) ins m)
    unfolding emit_r r_op
    emit_r-Tracks op t =
        let (x, e, g, r) = read_reg-Reads m v c h (r2 ins) (r2-lt ins) in
        let (y, f, k, q) = read_reg-Reads m v x.1 r (ins.encoding / 2 ^ 11 % 32) (omega arith) in
        rw (r3_field ins t, e, f) (binary-Tracks m y.1 q op (r1 ins) _ _ x.0 y.0 (r1-lt ins) g k)

    module _ (t : is_i (get_type ins) ≡ true) where
      pub emit_i-Tracks :
          (op : BinaryOp) → Tracks (emit_i b op ins (get_pc m) c) (i_op (meaning op) ins m)
      unfolding emit_i i_op
      emit_i-Tracks op =
          let (x, e, g, r) = read_reg-Reads m v c h (r2 ins) (r2-lt ins) in
          let (i, f, l) = imm_word ins t in
          rw (e, f)
            (binary-Tracks m x.1 r op (r1 ins) _ _ x.0 (b.get_int32 i) (r1-lt ins) g
              (s.int32_gives m0 i l))

      emit_addr-Reads :
          (i : ℕ)
          → imm ins ≡ some i
          → i < 2 ^ 32
          → Reads (emit_addr b ins (get_pc m) c) (add32 (m.reg (r2 ins)) i) m
      unfolding emit_addr
      emit_addr-Reads i f l =
          let (x, e, g, r) = read_reg-Reads m v c h (r2 ins) (r2-lt ins) in
          let w =
            s.binary_runs add_bin x.0 (b.get_int32 i) _ i _ x.1 m0 (at_pc z m) g
              (s.int32_gives m0 i l) refl r in
          rw (e, f) (_, refl, w.0, w.1)

      pub emit_lui-Tracks :
          r2 ins ≡ reg_zero
          → Tracks (emit_lui b ins (get_pc m) c) (i_op (pure (λ a d. bit_or a (shl32 d 16))) ins m)
      unfolding emit_lui i_op
      emit_lui-Tracks q =
          let (i, f, l) = imm_word ins t in
          let w =
            s.shl_runs (b.get_int32 i) (b.get_int32 16) i 16 c m0 (at_pc z m) (s.int32_gives m0 i l)
              (s.int32_gives m0 16 (omega arith)) (omega arith) h in
          let (x, e, g, r) = read_reg-Reads m v _ w.1 (r2 ins) (r2-lt ins) in
          let low =
            s.binary_runs and_bin x.0 (b.get_int32 0xffff) (m.reg (r2 ins)) 0xffff _ x.1 m0
              (at_pc z m) g (s.int32_gives m0 0xffff (omega arith)) refl r in
          let same : m.reg (r2 ins) ≡ 0 = ap m.reg q ∙ v.zero in
          let none_lost : bit_and (m.reg (r2 ins)) 0xffff ≡ m.reg (r2 ins) = rw same refl in
          let kept =
            subst (s.Gives m0 (b.create_binary and_bin x.0 (b.get_int32 0xffff) x.1).0) none_lost
              low.0 in
          rw (f, e) (binary-Tracks m _ low.1 or_bin (r1 ins) _ _ _ _ (r1-lt ins) kept w.0)

      pub emit_load-Tracks : Tracks (emit_load b ins (get_pc m) c) (interpreter_load ins m)
      unfolding emit_load interpreter_load
      emit_load-Tracks =
          let (i, f, l) = imm_word ins t in
          let (a, e, g, r) = emit_addr-Reads i f l in
          rw (f, e) (by_value a g r (load_value (add32 (m.reg (r2 ins)) i) m) refl)
        where
          by_value :
              {addr : ℕ} (a : Value × Code)
              → s.Gives m0 a.0 addr
              → s.Runs a.1 m0 (at_pc z m)
              → (o : Outcome (ℕ × Machine)) → load_value addr m ≡ o
              → let w = b.call_load a.0 a.1 in
                Tracks
                  (write_reg b (r1 ins) w.0 w.1)
                  (o >>= λ r. interpreter_write (r1 ins) r.0 r.1)
          by_value a g r (stop k) e = tt
          by_value a g r (ok (n, m1)) e =
              let w =
                s.call_load_runs a.0 _ n a.1 m0 (at_pc z m) (at_pc z m1) g r
                  (load-at_pc z _ m ∙ ap (λ o. o >>= λ r. ok (r.0, at_pc z r.1)) e) in
              write_reg-Tracks m1 _ w.1 (r1 ins) n _ (r1-lt ins) w.0

      pub emit_store-Tracks : Tracks (emit_store b ins (get_pc m) c) (interpreter_store ins m)
      unfolding emit_store interpreter_store
      emit_store-Tracks =
          let (i, f, l) = imm_word ins t in
          let (a, e, g, r) = emit_addr-Reads i f l in
          let (x, k, u, q) = read_reg-Reads m v a.1 r (r1 ins) (r1-lt ins) in
          rw (f, e, k)
            (by_value x a u g q (store_value (add32 (m.reg (r2 ins)) i) (m.reg (r1 ins)) m) refl)
        where
          by_value :
              {n addr : ℕ} (x a : Value × Code)
              → s.Gives m0 x.0 n
              → s.Gives m0 a.0 addr
              → s.Runs x.1 m0 (at_pc z m)
              → (o : Outcome Machine) → store_value addr n m ≡ o
              → Tracks (made (b.call_store x.0 a.0 x.1)) o
          by_value x a u g q (stop k) e = tt
          by_value x a u g q (ok m1) e = (
            _,
            refl,
            s.call_store_runs _ _ _ _ x.1 m0 (at_pc z m) (at_pc z m1) u g q
                (store-at_pc z _ _ m ∙ ap (λ o. o >>= λ r. ok (at_pc z r)) e),
          )
