-- ===== src/Jit/Tests.antt =====
-- The compiling simulator at concrete inputs: a builder that runs straight-line code as it is
-- built, in which a value is a function of the state at the start.
use llvm_mipt.Base.{ℕ, ◌≡◌, refl, ◌⊎◌, arith, Bool, true, false, not, ◌==◌, ltb, List, [], ◌∷◌}
use llvm_mipt.Base.Word.{shl32, slt, sle}
use llvm_mipt.Instr.Opcodes.{code, of_code, get_instr_type}
use llvm_mipt.Instr.{Instr, get_opcode, get_type, r1, r2, r3, imm, sign_extend, is_jump}
use llvm_mipt.Sim.State.{
  Machine, Outcome, ok, stop, Stop, ◌>>=◌, update, write_reg, read_uint_from_memory,
  write_uint_to_memory,
}
use llvm_mipt.Sim.Exec.{flag, exec, r_op, i_op}
use llvm_mipt.Sim.Device.{load_value, store_value, is_mmio, getchar, sim_rand, next_seed}
use llvm_mipt.Sim.Device.{handle_load as interpreter_load, handle_store as interpreter_store}
use llvm_mipt.Sim.Load.{initial}
use llvm_mipt.Sim.Run.{execute, set_pc, image_byte, run, halted, stopped}
use llvm_mipt.Jit.Builder.{
  Builder, Predicate, eq_pred, ne_pred, sgt_pred, sge_pred, slt_pred, sle_pred, ult_pred, made,
}
use llvm_mipt.Jit.Devices.{handle_load, handle_store}
use llvm_mipt.Jit.Compile.{is_supported_jump, compile}
use llvm_mipt.Jit.Support.{is_made}
use llvm_mipt.Jit.Blocks.{all}
use llvm_mipt.Jit.Accepts.{is_compiled, compile-made}
use llvm_mipt.Jit.Semantics.{meaning, Semantics}
use llvm_mipt.Jit.AtPc.{at_pc}
use llvm_mipt.Jit.Program.{is_straight}
use llvm_mipt.Jit.Whole.{StaysIntact, compile-run}

abbrev Run : Type 0
Run = Machine → Outcome Machine

abbrev Word : Type 0
Word = Machine → ℕ

abbrev or_zero : Outcome ℕ → ℕ
or_zero (ok n) = n
or_zero (stop e) = 0

abbrev holds : Predicate → ℕ → ℕ → Bool
holds eq_pred a b = a == b
holds ne_pred a b = not (a == b)
holds sgt_pred a b = slt b a
holds sge_pred a b = sle b a
holds slt_pred a b = slt a b
holds sle_pred a b = sle a b
holds ult_pred a b = ltb a b

abbrev straight : Builder
straight = record {
  Code = Run;
  Value = Word;
  Block = ℕ;
  start = ok;
  get_int32 = λ n m0. n;
  create_load = λ idx c. (λ m0. or_zero (c m0 >>= λ m. ok (m.reg idx)), c);
  create_store = λ v idx c m0. c m0 >>= λ m. ok (record m { reg = update m.reg idx (v m0) });
  create_binary = λ op u v c. (λ m0. or_zero (meaning op (u m0) (v m0)), c);
  create_shl = λ u v c. (λ m0. shl32 (u m0) (v m0), c);
  create_icmp = λ p u v c. (λ m0. flag (holds p (u m0) (v m0)), c);
  create_zext = λ v c. (v, c);
  call_load = λ a c. (
    λ m0. or_zero (c m0 >>= λ m. handle_load (a m0) m >>= λ r. ok r.0),
    λ m0. c m0 >>= λ m. handle_load (a m0) m >>= λ r. ok r.1,
  );
  call_store = λ v a c m0. c m0 >>= λ m. handle_store (v m0) (a m0) m;
  create_block = λ name c. (0, c);
  set_insert_point = λ x c. c;
  create_br = λ x c. c;
  create_cond_br = λ v x y c. c;
  create_ret_void = λ c. c;
}

abbrev straight_semantics : Semantics straight
straight_semantics = record {
  Runs = λ c m0 m. c m0 ≡ ok m;
  Gives = λ m0 v n. v m0 ≡ n;
  start_runs = λ name m. refl;
  ret_runs = λ c m0 m h. h;
  int32_gives = λ m0 n h. refl;
  load_runs = λ idx c m0 m h. (rw h refl, h);
  store_runs = λ v n idx c m0 m g h. rw (h, g) refl;
  binary_runs = λ op u v i j n c m0 m g k e h. (rw (g, k, e) refl, h);
  shl_runs = λ u v i j c m0 m g k l h. (rw (g, k) refl, h);
  call_load_runs = λ a addr n c m0 m m1 g h e. (rw (h, g, e) refl, rw (h, g, e) refl);
  call_store_runs = λ v a n addr c m0 m m1 g k h e. rw (h, g, k, e) refl;
}

-- `addi`, `lui`, a `store` to the standard output, a `load` of the first word and `sub`.
abbrev program : List Instr
program =
    record { encoding = 0x09800041 }
    ∷ record { encoding = 0x55a0ffff }
    ∷ record { encoding = 0x5d80ff01 }
    ∷ record { encoding = 0x59c00000 }
    ∷ record { encoding = 0x25ec7000 }
    ∷ []

abbrev start : Machine
start = initial 64 32 [] 1 program

stays_intact : StaysIntact program program start
unfolding execute of_code get_opcode exec i_op imm get_type get_instr_type write_reg r1 set_pc
    interpreter_store store_value is_mmio r2 sign_extend r3 interpreter_load load_value getchar
    sim_rand next_seed read_uint_from_memory r_op write_uint_to_memory image_byte
stays_intact = (λ k h. refl, (λ k h. refl, (λ k h. refl, (λ k h. refl, (λ k h. refl, tt)))))

is_straight-program : all is_straight program ≡ true
unfolding is_straight of_code get_opcode r2
is_straight-program = refl

compile-run_example :
    ((m : Machine) × (run 6 64 32 [] 1 program ≡ ok (halted m))
      × (c : Run) × (compile straight program ≡ made c)
      × (c (at_pc 0 start) ≡ ok (at_pc 0 m)))
    ⊎ ((m : Machine) × (e : Stop) × (run 6 64 32 [] 1 program ≡ ok (stopped m e)))
compile-run_example =
    compile-run straight straight_semantics 0 6 64 32 [] 1 program (omega arith) (omega arith)
      (omega arith) (omega arith) (omega arith)
      (omega arith, (omega arith, (omega arith, (omega arith, (omega arith, tt)))))
      is_straight-program stays_intact (omega arith)

-- `blt` and a jump back, then a `bne`.
abbrev branches : List Instr
branches =
    record { encoding = 0xb18d0000 }
    ∷ record { encoding = 0xb81fffff }
    ∷ record { encoding = 0xa58d0000 }
    ∷ []

compile-made_example : is_made (compile straight branches) ≡ all is_compiled branches
compile-made_example = compile-made straight branches

is_compiled-branches : all is_compiled branches ≡ false
unfolding is_supported_jump is_jump get_opcode code r1 r2
is_compiled-branches = refl
