-- ===== src/Jit/Program.antt =====
-- `simulate` of asm/src/qrisc-llvm-sim.cpp on a program without branches, beside the interpreter.
use llvm_mipt.Base.{
  ℕ, ◌+◌, ◌*◌, ◌^◌, ◌<◌, ◌≡◌, refl, subst, arith, Bool, true, false, ◌&&◌, ◌==◌, none, some, List,
  [], ◌∷◌, length, if◌then◌else◌, Option-cases, inl, inr,
}
use llvm_mipt.Base.Word.{add32}
use llvm_mipt.Instr.Opcodes.{of_code}
use llvm_mipt.Instr.{Instr, get_opcode, is_jump, is_branch}
use llvm_mipt.Sim.State.{Machine, Outcome, ok, stop, ◌>>=◌, get_pc}
use llvm_mipt.Sim.Run.{execute}
use llvm_mipt.Sim.Invariant.Parts.{IsValid, Safe}
use llvm_mipt.Sim.Invariant.Steps.{Advances}
use llvm_mipt.Sim.Invariant.{execute-Safe}
use llvm_mipt.Jit.Builder.{Builder, made}
use llvm_mipt.Jit.Builder.{◌>>=◌ as ◌then◌}
use llvm_mipt.Jit.Compile.{
  Blocks, scan, scan_instr, is_supported_jump, emit_one, emit_all, entry, compile,
}
use llvm_mipt.Jit.Blocks.{all}
use llvm_mipt.Jit.Semantics.{Semantics}
use llvm_mipt.Jit.AtPc.{at_pc}
use llvm_mipt.Jit.Straight.{Tracks}
use llvm_mipt.Jit.Steps.{straight_op, no_flow, Follows, exec-Tracks}

unfoldable pub is_straight : Instr → Bool
is_straight ins = elim (of_code (get_opcode ins)) [ none ↦ false | some o ↦ straight_op o ins ]

-- The instructions one after another, as the loop of the interpreter takes them.
unfoldable pub execute_all : List Instr → Machine → Outcome Machine
execute_all [] m = ok m
execute_all (ins ∷ instrs) m = execute ins m >>= λ r. execute_all instrs r

pub straight-flow :
    (ins : Instr) → is_straight ins ≡ true → (is_branch ins ≡ false) × (is_jump ins ≡ false)
unfolding is_straight
straight-flow ins h = elim (Option-cases (of_code (get_opcode ins))) [
  | inl e ↦ let z : false ≡ true = rw (e, is_straight) at h in cc
  | inr (o, e) ↦ no_flow o ins (rw (e, is_straight) at h) e
]

pub and-both : (a b : Bool) → (a && b) ≡ true → (a ≡ true) × (b ≡ true)
and-both true b h = (refl, h)
and-both false b h = cc

module _ (b : Builder) where
  open b use {Code, Value, Block}

  scan_instr-straight :
      (ins : Instr) (pc : ℕ) (t : Blocks b × Code)
      → is_straight ins ≡ true
      → scan_instr b ins pc t ≡ made t
  unfolding scan_instr is_supported_jump
  scan_instr-straight ins pc t h = let (e, j) = straight-flow ins h in rw (e, j) refl

  scan-straight :
      (instrs : List Instr) (pc : ℕ) (t : Blocks b × Code)
      → all is_straight instrs ≡ true
      → scan b instrs pc t ≡ made t
  unfolding scan
  scan-straight [] pc t h = refl
  scan-straight (ins ∷ instrs) pc t h =
      let (e, r) = and-both _ _ h in
      rw (scan_instr-straight ins pc t e) (scan-straight instrs (add32 pc 4) t r)

  module _ (s : Semantics b) (z : ℕ) (m0 : Machine) (bl : Blocks b)
      (alone : (addr : ℕ) → (addr == 0) ≡ false → bl addr ≡ none) where
    execute-Follows :
        (m : Machine) (v : IsValid m) (c : Code) (ins : Instr)
        → s.Runs c m0 (at_pc z m)
        → is_straight ins ≡ true
        → get_pc m + 4 < 2 ^ 32
        → Follows b s z m0 (get_pc m) (emit_one b ins (get_pc m) bl c) (execute ins m)
    unfolding emit_one execute is_straight
    execute-Follows m v c ins h t l = elim (Option-cases (of_code (get_opcode ins))) [
      | inl e ↦ let y : false ≡ true = rw (e, is_straight) at t in cc
      | inr (o, e) ↦
          rw (e, emit_one, execute)
            (exec-Tracks b s z m0 m v c h ins o bl e (rw (e, is_straight) at t)
              (alone (add32 (get_pc m) 4) (ground arith)))
    ]

    all-Tracks :
        (instrs : List Instr) (m : Machine) (c : Code)
        → IsValid m
        → s.Runs c m0 (at_pc z m)
        → all is_straight instrs ≡ true
        → get_pc m + length instrs * 4 < 2 ^ 32
        → Tracks b s z m0 (emit_all b instrs (get_pc m) bl c) (execute_all instrs m)
    unfolding emit_all execute_all
    all-Tracks [] m c v h t l = (c, refl, h)
    all-Tracks (ins ∷ instrs) m c v h t l =
        let (e, r) = and-both _ _ t in
        by_step (execute ins m) (λ m1 d y k q. all-Tracks instrs m1 d y k r q)
          (execute-Follows m v c ins h e (omega arith)) (execute-Safe ins m v)
      where
        by_step :
            (o : Outcome Machine)
            → ((m1 : Machine) (d : Code)
                → IsValid m1
                → s.Runs d m0 (at_pc z m1)
                → get_pc m1 + length instrs * 4 < 2 ^ 32
                → Tracks b s z m0 (emit_all b instrs (get_pc m1) bl d) (execute_all instrs m1))
            → Follows b s z m0 (get_pc m) (emit_one b ins (get_pc m) bl c) o
            → Safe (Advances m) o
            → Tracks b s z m0
                (emit_one b ins (get_pc m) bl c then λ d.
                  emit_all b instrs (add32 (get_pc m) 4) bl d)
                (o >>= λ r. execute_all instrs r)
        by_step (stop k) next f a = tt
        by_step (ok m1) next ((d, f, k), p) a = rw f (
            subst (λ q. Tracks b s z m0 (emit_all b instrs q bl d) (execute_all instrs m1)) p
              (next m1 d a.0.0 k (omega arith)))

-- A program without branches and jumps of less than 2 ^ 30 instructions, in which every `lui` is
-- on the zero register and no instruction is a `slt`, `sltu`, `slti` or `sltiu`, from a valid
-- state with the program counter at 0: when the interpreter takes its instructions one after
-- another and completes in a state, then the program is compiled, and its code runs to the same
-- state, but for the register of the program counter, which keeps what it had. The behaviour of
-- LLVM is a hypothesis, `Semantics`.
pub compile-execute_all :
    (b : Builder) (s : Semantics b) (z : ℕ) (instrs : List Instr) (m m' : Machine)
    → IsValid m
    → get_pc m ≡ 0
    → length instrs * 4 < 2 ^ 32
    → all is_straight instrs ≡ true
    → execute_all instrs m ≡ ok m'
    → (c : b.Code) × (compile b instrs ≡ made c) × s.Runs c (at_pc z m) (at_pc z m')
unfolding compile
compile-execute_all b s z instrs m m' v p l t e = by_body
  where
    first : Blocks b × b.Code
    first = entry b (b.create_block "entry" b.start)

    body : Tracks b s z (at_pc z m) (emit_all b instrs 0 first.0 first.1) (ok m')
    body =
        subst (λ q. Tracks b s z (at_pc z m) (emit_all b instrs q first.0 first.1) (ok m')) p
          (subst (Tracks b s z (at_pc z m) (emit_all b instrs (get_pc m) first.0 first.1)) e (
            all-Tracks b s z (at_pc z m) first.0 (λ addr k. rw k refl) instrs m first.1 v
              (s.start_runs "entry" (at_pc z m)) t (omega (arith, p, l))))

    by_body : (c : b.Code) × (compile b instrs ≡ made c) × s.Runs c (at_pc z m) (at_pc z m')
    by_body =
        let (c, f, h) = body in
        (b.create_ret_void c, rw (scan-straight b instrs 0 first t, f) refl, s.ret_runs c _ _ h)
