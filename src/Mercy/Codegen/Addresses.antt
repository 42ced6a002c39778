-- ===== src/Mercy/Codegen/Addresses.antt =====
-- The addresses of the declarations that mercy/src/Codegen.cpp keeps, and their types.
use llvm_mipt.Base.{
  ℕ, ◌≡◌, refl, sym, ap, ◌∙◌, arith, Bool-cases, inl, inr, Option, some, List, [], ◌∷◌, length,
  ◌==◌, if◌then◌else◌,
}
use llvm_mipt.Mercy.Types.{Ty}
use llvm_mipt.Mercy.Codegen.Api.{Llvm, made}
use llvm_mipt.Mercy.Codegen.Types.{get_llvm_type}
use llvm_mipt.Mercy.Codegen.Emit.{set_addr}
use llvm_mipt.Mercy.Codegen.Documented.{Documented}
use llvm_mipt.Mercy.Codegen.FunctionTyping.{set_decl, bind_decls}
use llvm_mipt.Mercy.Codegen.Typed.{Declared}
use llvm_mipt.Mercy.Codegen.Functions.{TypedParam, bind_params}

module _ (l : Llvm) (d : Documented l) where
  open l use {Value}

  pub Declared-set_addr :
      (decls : ℕ → Option Ty) (addr : ℕ → Option Value) (i : ℕ) (t : Ty) (ty : l.Typ) (v : Value)
      → Declared l d decls addr
      → get_llvm_type l t ≡ made ty
      → d.HasType v (l.get_pointer_to ty)
      → Declared l d (set_decl i (some t) decls) (set_addr l addr i v)
  Declared-set_addr decls addr i t ty v h g w j u e full = elim (Bool-cases (j == i)) [
    | inl q ↦
        let same : some t ≡ some u = sym (ap (λ b. if b then some t else decls j) q) ∙ e in
        let same' : t ≡ u = cc in
        (v, ty, ap (λ b. if b then some v else addr j) q, ap (get_llvm_type l) (sym same') ∙ g, w)
    | inr q ↦
        let (x, tx, a, b, c) = h j u (sym (ap (λ b. if b then some t else decls j) q) ∙ e) full in
        (x, tx, ap (λ b. if b then some v else addr j) q ∙ a, b, c)
  ]

  pub bind_params-Declared :
      (fs ps : List TypedParam) (decls : ℕ → Option Ty) (addr : ℕ → Option Value)
      → length fs ≡ length ps
      → Declared l d decls addr
      → (bound : ℕ → Option Value) × (bind_params l fs ps addr ≡ made bound)
        × Declared l d (bind_decls fs ps decls) bound
  unfolding bind_params
  bind_params-Declared [] ps decls addr n h = (addr, refl, h)
  bind_params-Declared (f ∷ fs) [] decls addr n h = absurd (omega arith)
  bind_params-Declared (f ∷ fs) (p ∷ ps) decls addr n h =
      bind_params-Declared fs ps (set_decl p.decl (decls f.decl) decls)
        (λ j. if j == p.decl then addr f.decl else addr j) (omega arith)
        (λ j u e full. elim (Bool-cases (j == p.decl)) [
          | inl q ↦
              let (x, tx, a, b, c) =
                h f.decl u (sym (ap (λ b. if b then decls f.decl else decls j) q) ∙ e) full in
              (x, tx, ap (λ b. if b then addr f.decl else addr j) q ∙ a, b, c)
          | inr q ↦
              let (x, tx, a, b, c) =
                h j u (sym (ap (λ b. if b then decls f.decl else decls j) q) ∙ e) full in
              (x, tx, ap (λ b. if b then addr f.decl else addr j) q ∙ a, b, c)
        ])
