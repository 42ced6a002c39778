-- ===== src/Jit/Blocks.antt =====
-- The first pass of `simulate` (asm/src/qrisc-llvm-sim.cpp): the blocks it finds, and what it
-- accepts.
use llvm_mipt.Base.{
  ℕ, ◌≡◌, refl, subst, ap, ◌∙◌, Bool, true, false, ◌&&◌, ◌||◌, Option, none, some, List, [], ◌∷◌,
  ◌==◌, String, if◌then◌else◌, Bool-cases, inl, inr, ==_iff,
}
use llvm_mipt.Base.Word.{add32}
use llvm_mipt.Instr.{Instr, imm, is_jump, is_branch}
use llvm_mipt.Sim.Exec.{jump_target}
use llvm_mipt.Jit.Builder.{
  Builder, Emission, made, refused, ◌>>=◌, or_refuse, check, unsupported_jump, failed_assert,
}
use llvm_mipt.Jit.Compile.{
  is_supported_jump, Blocks, ensure, ensure_block, scan_target, scan_instr, scan,
}
use llvm_mipt.Instr.Kinds.{flow-is_i}
use llvm_mipt.Jit.Support.{is_made, imm-some}

abbrev pub is_some {ℓ} : {A : Type ℓ} → Option A → Bool
is_some none = false
is_some (some a) = true

abbrev pub Holds {ℓ κ} : {A : Type ℓ} → (A → Type κ) → Emission A → Type κ
Holds P (made a) = P a
Holds P (refused e) = Unit

bind-Holds {ℓ κ} :
    {A : Type ℓ} (P Q : A → Type κ) (e : Emission A) (f : A → Emission A)
    → Holds P e
    → ((a : A) → P a → Holds Q (f a))
    → Holds Q (e >>= f)
bind-Holds P Q (made a) f h k = k a h
bind-Holds P Q (refused e) f h k = tt

Holds-map {ℓ κ} :
    {A : Type ℓ} {P Q : A → Type κ}
    → ((a : A) → P a → Q a)
    → (e : Emission A) → Holds P e
    → Holds Q e
Holds-map k (made a) h = k a h
Holds-map k (refused e) h = tt

pub is_made-bind {ℓ κ} :
    {A : Type ℓ} {B : Type κ} (e : Emission A) (f : A → Emission B) (v : Bool)
    → ((a : A) → is_made (f a) ≡ v)
    → is_made (e >>= f) ≡ (is_made e && v)
is_made-bind (made a) f v h = h a
is_made-bind (refused e) f v h = refl

abbrev pub all : (Instr → Bool) → List Instr → Bool
all test [] = true
all test (ins ∷ instrs) = test ins && all test instrs

module _ (b : Builder) where
  open b use {Code, Value, Block}

  -- The blocks that the control flow of an instruction needs are there.
  abbrev pub Present : Blocks b → Instr → ℕ → Type 0
  Present bl ins pc =
      (is_branch ins || is_jump ins) ≡ true
      → (i : ℕ) → imm ins ≡ some i
      → (is_some (bl (jump_target pc i)) ≡ true) × (is_some (bl (add32 pc 4)) ≡ true)

  abbrev pub AllPresent : Blocks b → List Instr → ℕ → Type 0
  AllPresent bl [] pc = Unit
  AllPresent bl (ins ∷ instrs) pc = Present bl ins pc × AllPresent bl instrs (add32 pc 4)

  abbrev pub Kept : Blocks b → Blocks b → Type 0
  Kept bl bl' = (addr : ℕ) → is_some (bl addr) ≡ true → is_some (bl' addr) ≡ true

  ensure-Kept : (name : String) (addr : ℕ) (s : Blocks b × Code) → Kept s.0 (ensure b name addr s).0
  unfolding ensure
  ensure-Kept name addr (bl, c) a h = by_old (bl addr) refl
    where
      by_old :
          (old : Option Block)
          → bl addr ≡ old
          → is_some ((ensure_block b name addr old bl c).0 a) ≡ true
      by_old (some x) e = h
      by_old none e = elim (Bool-cases (a == addr)) [ inl t ↦ rw t refl | inr f ↦ rw f h ]

  ensure-some :
      (name : String) (addr : ℕ) (s : Blocks b × Code)
      → is_some ((ensure b name addr s).0 addr) ≡ true
  unfolding ensure
  ensure-some name addr (bl, c) = by_old (bl addr) refl
    where
      by_old :
          (old : Option Block)
          → bl addr ≡ old
          → is_some ((ensure_block b name addr old bl c).0 addr) ≡ true
      by_old (some x) e = rw e refl
      by_old none e = rw ((==_iff addr addr).1 refl) refl

  scan_target-Holds :
      (ins : Instr) (pc : ℕ) (s : Blocks b × Code)
      → Holds (λ t. Present t.0 ins pc × Kept s.0 t.0) (scan_target b ins pc s)
  scan_target-Holds ins pc s = by_imm (imm ins) refl
    where
      by_imm :
          (i : Option ℕ)
          → imm ins ≡ i
          → Holds
              (λ t. Present t.0 ins pc × Kept s.0 t.0)
              (or_refuse i failed_assert >>= λ i.
                made (ensure b "bb_cont" (add32 pc 4) (ensure b "bb" (jump_target pc i) s)))
      by_imm none e = tt
      by_imm (some i) e = (
        λ f j h.
            let same : i ≡ j = cc in
            (
              ensure-Kept "bb_cont" _ _ _ (
                  subst
                    (λ k.
                      is_some ((ensure b "bb" (jump_target pc i) s).0 (jump_target pc k)) ≡ true)
                    same (ensure-some "bb" _ s)),
              ensure-some "bb_cont" _ _,
            ),
        λ a h. ensure-Kept "bb_cont" _ _ a (ensure-Kept "bb" _ s a h),
      )

  scan_instr-Holds :
      (ins : Instr) (pc : ℕ) (s : Blocks b × Code)
      → Holds (λ t. Present t.0 ins pc × Kept s.0 t.0) (scan_instr b ins pc s)
  unfolding scan_instr
  scan_instr-Holds ins pc s = by_support (is_supported_jump ins)
    where
      by_flow :
          (f : Bool)
          → (is_branch ins || is_jump ins) ≡ f
          → Holds
              (λ t. Present t.0 ins pc × Kept s.0 t.0)
              (if f then scan_target b ins pc s else made s)
      by_flow true e = scan_target-Holds ins pc s
      by_flow false e = (λ f. cc, λ a h. h)

      by_support :
          (f : Bool)
          → Holds
              (λ t. Present t.0 ins pc × Kept s.0 t.0)
              (check f unsupported_jump s >>= λ t.
                if is_branch ins || is_jump ins then scan_target b ins pc t else made t)
      by_support true = by_flow (is_branch ins || is_jump ins) refl
      by_support false = tt

  pub scan-Holds :
      (instrs : List Instr) (pc : ℕ) (s : Blocks b × Code)
      → Holds (λ t. AllPresent t.0 instrs pc × Kept s.0 t.0) (scan b instrs pc s)
  unfolding scan
  scan-Holds [] pc s = (tt, λ a h. h)
  scan-Holds (ins ∷ instrs) pc s =
      bind-Holds _ _ (scan_instr b ins pc s) _ (scan_instr-Holds ins pc s) λ t h.
        Holds-map
          (λ u x.
            ((λ f i e. let y = h.0 f i e in (x.1 _ y.0, x.1 _ y.1), x.0), λ a z. x.1 a (h.1 a z)))
          (scan b instrs (add32 pc 4) t) (scan-Holds instrs (add32 pc 4) t)

  scan_target-made :
      (ins : Instr) (pc : ℕ) (s : Blocks b × Code)
      → (is_branch ins || is_jump ins) ≡ true
      → is_made (scan_target b ins pc s) ≡ true
  scan_target-made ins pc s f = let (i, e) = imm-some ins (flow-is_i ins f) in rw e refl

  scan_instr-made :
      (ins : Instr) (pc : ℕ) (s : Blocks b × Code)
      → is_made (scan_instr b ins pc s) ≡ is_supported_jump ins
  unfolding scan_instr
  scan_instr-made ins pc s = by_support (is_supported_jump ins)
    where
      by_flow :
          (f : Bool)
          → (is_branch ins || is_jump ins) ≡ f
          → is_made (if f then scan_target b ins pc s else made s) ≡ true
      by_flow true e = scan_target-made ins pc s e
      by_flow false e = refl

      by_support :
          (f : Bool)
          → is_made (
              check f unsupported_jump s >>= λ t.
              if is_branch ins || is_jump ins then scan_target b ins pc t else made t)
            ≡ f
      by_support true = by_flow (is_branch ins || is_jump ins) refl
      by_support false = refl

  pub scan-made :
      (instrs : List Instr) (pc : ℕ) (s : Blocks b × Code)
      → is_made (scan b instrs pc s) ≡ all is_supported_jump instrs
  unfolding scan
  scan-made [] pc s = refl
  scan-made (ins ∷ instrs) pc s =
      is_made-bind (scan_instr b ins pc s) _ (all is_supported_jump instrs)
        (λ t. scan-made instrs (add32 pc 4) t)
      ∙ ap (λ f. f && all is_supported_jump instrs) (scan_instr-made ins pc s)
