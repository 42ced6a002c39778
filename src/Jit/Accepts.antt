-- ===== src/Jit/Accepts.antt =====
-- Which programs `simulate` of asm/src/qrisc-llvm-sim.cpp compiles.
use llvm_mipt.Base.{ℕ, ◌≡◌, refl, sym, ap, ◌∙◌, arith, Bool, true, false, ◌&&◌, List, [], ◌∷◌}
use llvm_mipt.Base.Word.{add32}
use llvm_mipt.Instr.{Instr}
use llvm_mipt.Jit.Builder.{Builder, Emission, made, refused, ◌>>=◌}
use llvm_mipt.Jit.Compile.{is_supported_jump, Blocks, scan, emit_one, emit_all, entry, compile}
use llvm_mipt.Jit.Support.{is_made}
use llvm_mipt.Jit.Blocks.{Holds, is_made-bind, all, AllPresent, Kept, scan-Holds, scan-made}
use llvm_mipt.Jit.Translated.{is_translated, emit_one-made}

abbrev pub is_compiled : Instr → Bool
is_compiled ins = is_supported_jump ins && is_translated ins

and_true : (a : Bool) → (a && true) ≡ a
and_true true = refl
and_true false = refl

all-and :
    (instrs : List Instr)
    → all is_compiled instrs ≡ (all is_supported_jump instrs && all is_translated instrs)
all-and [] = refl
all-and (ins ∷ instrs) = rw (all-and instrs) (swap (is_supported_jump ins) (is_translated ins) _ _)
  where
    swap : (a b c d : Bool) → ((a && b) && (c && d)) ≡ ((a && c) && (b && d))
    swap a b c d = ground arith

module _ (b : Builder) where
  open b use {Code}

  emit_all-made :
      (instrs : List Instr) (pc : ℕ) (bl : Blocks b) (c : Code)
      → AllPresent b bl instrs pc
      → is_made (emit_all b instrs pc bl c) ≡ all is_translated instrs
  unfolding emit_all
  emit_all-made [] pc bl c p = refl
  emit_all-made (ins ∷ instrs) pc bl c p =
      is_made-bind (emit_one b ins pc bl c) _ _ (λ d. emit_all-made instrs (add32 pc 4) bl d p.1)
      ∙ ap (λ f. f && all is_translated instrs) (emit_one-made b ins pc bl c p.0)

  body-made :
      (instrs : List Instr) (s : Blocks b × Code)
      → AllPresent b s.0 instrs 0
      → is_made (emit_all b instrs 0 s.0 s.1 >>= λ c. made (b.create_ret_void c))
        ≡ all is_translated instrs
  body-made instrs s p =
      is_made-bind (emit_all b instrs 0 s.0 s.1) _ true (λ c. refl)
      ∙ ap (λ f. f && true) (emit_all-made instrs 0 s.0 s.1 p)
      ∙ and_true _

  -- The compiler makes the code of exactly the programs whose jumps do not link and are relative to
  -- the instruction, and in which no instruction is a `bne`: on all other programs it gives up, and
  -- on these it finds every block that it needs.
  pub compile-made : (instrs : List Instr) → is_made (compile b instrs) ≡ all is_compiled instrs
  unfolding compile
  compile-made instrs =
      by_scan (scan b instrs 0 first) (scan-Holds b instrs 0 first)
      ∙ ap (λ f. f && all is_translated instrs) (scan-made b instrs 0 first)
      ∙ sym (all-and instrs)
    where
      first : Blocks b × Code
      first = entry b (b.create_block "entry" b.start)

      by_scan :
          (e : Emission (Blocks b × Code))
          → Holds (λ t. AllPresent b t.0 instrs 0 × Kept b first.0 t.0) e
          → is_made (e >>= λ s. emit_all b instrs 0 s.0 s.1 >>= λ c. made (b.create_ret_void c))
            ≡ (is_made e && all is_translated instrs)
      by_scan (made s) h = body-made instrs s h.0
      by_scan (refused r) h = refl
