-- ===== src/Jit/Whole.antt =====
-- The compiled code of asm/src/qrisc-llvm-sim.cpp beside the runs of asm/src/qrisc-sim.cpp, which
-- fetch each instruction from memory.
use llvm_mipt.Base.{
  ℕ, zero, suc, ◌+◌, ◌*◌, ◌^◌, ◌≤◌, ◌<◌, ◌≡◌, refl, ap, ◌∙◌, subst, true, false, ◌==◌, ==_iff, some,
  List, [], ◌∷◌, length, get_elem?, get_elem?-lt, arith, inl, inr, ◌⊎◌,
}
use llvm_mipt.Instr.{Instr}
use llvm_mipt.Sim.State.{Machine, Outcome, ok, stop, Stop, ◌>>=◌, get_pc, read_uint_from_memory}
use llvm_mipt.Sim.Run.{
  execute, step, run_loop, run, RunResult, halted, stopped, image_byte, binary_size,
}
use llvm_mipt.Sim.Invariant.Parts.{IsValid, Safe}
use llvm_mipt.Sim.Invariant.Steps.{Advances}
use llvm_mipt.Sim.Invariant.{execute-Safe}
use llvm_mipt.Sim.Isa.Steps.{Ensures}
use llvm_mipt.Sim.Load.{initial, initial-IsValid, load-initial, fetch-initial}
use llvm_mipt.Sim.Forward.{Goes, execute-Goes}
use llvm_mipt.Asm.Invariant.{Words}
use llvm_mipt.Jit.Builder.{Builder, made}
use llvm_mipt.Jit.Compile.{compile}
use llvm_mipt.Jit.Blocks.{all}
use llvm_mipt.Jit.Semantics.{Semantics}
use llvm_mipt.Jit.AtPc.{at_pc}
use llvm_mipt.Jit.Program.{is_straight, execute_all, straight-flow, and-both, compile-execute_all}

-- The binary lies in memory as it was loaded.
abbrev pub IsIntact : List Instr → Machine → Type 0
IsIntact instrs m = (k : ℕ) → k < binary_size instrs → m.byte k ≡ image_byte instrs k

-- No store is over the binary, as far as the interpreter comes in these instructions.
abbrev pub StaysIntact : List Instr → List Instr → Machine → Type 0
StaysIntact instrs [] m = Unit
StaysIntact instrs (i ∷ is) m = IsIntact instrs m × Ensures (StaysIntact instrs is) (execute i m)

-- The instructions from an index on.
abbrev Rest : List Instr → ℕ → List Instr → Type 0
Rest instrs k [] = length instrs ≡ k
Rest instrs k (i ∷ is) = (get_elem? instrs k ≡ some i) × Rest instrs (suc k) is

-- The end of a run that executes the instructions with this outcome.
abbrev Matches : RunResult → Outcome Machine → Type 0
Matches r (ok m) = r ≡ halted m
Matches r (stop e) = (m : Machine) × (r ≡ stopped m e)

Rest-cons :
    (x : Instr) (instrs : List Instr) (k : ℕ) (is : List Instr)
    → Rest instrs k is
    → Rest (x ∷ instrs) (suc k) is
Rest-cons x instrs k [] h = omega arith
Rest-cons x instrs k (i ∷ is) (e, h) = (e, Rest-cons x instrs (suc k) is h)

Rest-all : (instrs : List Instr) → Rest instrs 0 instrs
Rest-all [] = refl
Rest-all (i ∷ is) = (refl, Rest-cons i is 0 is (Rest-all is))

execute-straight :
    (ins : Instr) (m m' : Machine)
    → is_straight ins ≡ true
    → execute ins m ≡ ok m'
    → get_pc m + 4 < 2 ^ 32
    → get_pc m' ≡ get_pc m + 4
execute-straight ins m m' h e l =
    let (branch, jump) = straight-flow ins h in
    let goes : Goes (get_pc m) ins (get_pc m') =
      subst (Ensures (λ r. Goes (get_pc m) ins (get_pc r))) e (execute-Goes ins m jump) in
    elim goes [ inl n ↦ omega (arith, n, l) | inr (b, _, _, _) ↦ cc ]

module _ (instrs : List Instr) (size : ℕ) (fits : binary_size instrs ≤ size)
    (small : binary_size instrs < 2 ^ 32) where
  read-intact :
      (k : ℕ) (m : Machine)
      → m.mem_size ≡ size
      → IsIntact instrs m
      → k < length instrs
      → read_uint_from_memory (k * 4) m ≡ read_uint_from_memory (k * 4) (initial size 0 [] 0 instrs)
  unfolding read_uint_from_memory
  read-intact k m s h l =
      rw
        (
          s,
          h (k * 4) (omega arith),
          h (k * 4 + 1) (omega arith),
          h (k * 4 + 2) (omega arith),
          h (k * 4 + 3) (omega arith),
        )
        refl

  step-intact :
      (k : ℕ) (m : Machine) (i : Instr)
      → get_pc m ≡ k * 4
      → m.mem_size ≡ size
      → IsIntact instrs m
      → get_elem? instrs k ≡ some i
      → i.encoding < 2 ^ 32
      → step m ≡ execute i m
  unfolding step
  step-intact k m i p s h e w =
      let read =
        read-intact k m s h (get_elem?-lt instrs k i e)
        ∙ fetch-initial size 0 [] 0 instrs k i fits e w in
      rw (p, read, step) refl

  loop-Matches :
      (fuel k : ℕ) (rest : List Instr) (m : Machine)
      → Rest instrs k rest
      → Words rest
      → all is_straight rest ≡ true
      → StaysIntact instrs rest m
      → IsValid m
      → m.mem_size ≡ size
      → get_pc m ≡ k * 4
      → length rest < fuel
      → Matches (run_loop fuel (binary_size instrs) m) (execute_all rest m)
  unfolding run_loop execute_all
  loop-Matches zero k rest m r w t h v s p l = elim l [ ]
  loop-Matches (suc fuel) k [] m r w t h v s p l =
      let at_end : (get_pc m == binary_size instrs) ≡ true = (==_iff _ _).1 (omega (arith, r, p)) in
      rw (at_end, run_loop) refl
  loop-Matches (suc fuel) k (i ∷ is) m (e, r) w t h v s p l =
      let inside : k < length instrs = get_elem?-lt instrs k i e in
      let going : (get_pc m == binary_size instrs) ≡ false = rw p (ground arith) in
      let (ti, ts) = and-both _ _ t in
      rw (going, step-intact k m i p s (h.0) e (w.0), run_loop)
        (by_step (execute i m) refl (h.1) (execute-Safe i m v) ti
          λ m1 h1 v1 s1 p1. loop-Matches fuel (suc k) is m1 r (w.1) ts h1 v1 s1 p1 (omega arith))
    where
      by_step :
          (o : Outcome Machine)
          → execute i m ≡ o
          → Ensures (StaysIntact instrs is) o
          → Safe (Advances m) o
          → is_straight i ≡ true
          → ((m1 : Machine)
              → StaysIntact instrs is m1
              → IsValid m1
              → m1.mem_size ≡ size
              → get_pc m1 ≡ suc k * 4
              → Matches (run_loop fuel (binary_size instrs) m1) (execute_all is m1))
          → Matches
              (elim o as (λ x. RunResult) [
                | ok m' ↦ run_loop fuel (binary_size instrs) m'
                | stop e ↦ stopped m e
              ])
              (o >>= λ q. execute_all is q)
      by_step (stop z) x g a ti next = (m, refl)
      by_step (ok m1) x g a ti next =
          let lt : k < length instrs = get_elem?-lt instrs k i e in
          let n = execute-straight i m m1 ti x (omega (arith, p, lt, small)) in
          next m1 g (a.0.0) (a.0.1 ∙ s) (omega (arith, n, p))

-- A program of less than 2 ^ 30 words of 32 bits, without branches and jumps, in which every `lui`
-- is on the zero register and no instruction is a `slt`, `sltu`, `slti` or `sltiu`, and whose stores
-- leave the program itself as it is, is loaded with its stack and its seed in 32 bits, in a memory
-- that holds it and that 32 bits address. With more units of fuel than it has instructions, its run
-- by the interpreter, which fetches each instruction from memory, halts or is stopped. When it
-- halts, then the program is compiled, and its code runs from the state that is loaded to the one
-- that the interpreter halts in, but for the register of the program counter, which keeps what it
-- had. The behaviour of LLVM is a hypothesis, `Semantics`.
pub compile-run :
    (b : Builder) (s : Semantics b) (z fuel memory_size stack_addr : ℕ) (input : List ℕ) (seed : ℕ)
    (instrs : List Instr)
    → binary_size instrs ≤ memory_size
    → binary_size instrs < 2 ^ 32
    → memory_size ≤ 2 ^ 32
    → stack_addr < 2 ^ 32
    → seed < 2 ^ 32
    → Words instrs
    → all is_straight instrs ≡ true
    → StaysIntact instrs instrs (initial memory_size stack_addr input seed instrs)
    → length instrs < fuel
    → ((m' : Machine) × (run fuel memory_size stack_addr input seed instrs ≡ ok (halted m'))
        × (c : b.Code) × (compile b instrs ≡ made c)
        × s.Runs c (at_pc z (initial memory_size stack_addr input seed instrs)) (at_pc z m'))
      ⊎ ((m' : Machine) × (e : Stop) × (run fuel memory_size stack_addr input seed instrs
            ≡ ok (stopped m' e)))
unfolding run
compile-run b s z fuel memory_size stack_addr input seed instrs fits small hm hs hd w t h enough =
    by_outcome (execute_all instrs m) refl (
      loop-Matches instrs memory_size fits small fuel 0 instrs m (Rest-all instrs) w t h v refl refl
        enough)
  where
    m : Machine
    m = initial memory_size stack_addr input seed instrs

    v : IsValid m
    v = initial-IsValid memory_size stack_addr input seed instrs hm hs hd

    loaded :
        (r : RunResult)
        → run_loop fuel (binary_size instrs) m ≡ r
        → run fuel memory_size stack_addr input seed instrs ≡ ok r
    loaded r e = rw (load-initial memory_size stack_addr input seed instrs fits, run) (ap ok e)

    by_outcome :
        (o : Outcome Machine)
        → execute_all instrs m ≡ o
        → Matches (run_loop fuel (binary_size instrs) m) o
        → ((m' : Machine) × (run fuel memory_size stack_addr input seed instrs ≡ ok (halted m'))
            × (c : b.Code) × (compile b instrs ≡ made c)
            × s.Runs c (at_pc z m) (at_pc z m'))
          ⊎ ((m' : Machine) × (e : Stop) × (run fuel memory_size stack_addr input seed instrs
                ≡ ok (stopped m' e)))
    by_outcome (stop e) x (m', r) = inr (m', e, loaded (stopped m' e) r)
    by_outcome (ok m') x r =
        let (c, made_c, runs) = compile-execute_all b s z instrs m m' v refl small t x in
        inl (m', loaded (halted m') r, c, made_c, runs)
