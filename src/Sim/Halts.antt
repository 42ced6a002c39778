-- ===== src/Sim/Halts.antt =====
-- Runs of the interpreter, asm/src/qrisc-sim.cpp, on programs that only go forward.
use llvm_mipt.Base.{
  ℕ, zero, suc, ◌+◌, ◌^◌, ◌≤◌, ◌<◌, ◌≡◌, refl, Bool, true, false, ◌==◌, ltb, List, length, arith,
  Bool-cases, inl, inr,
}
use llvm_mipt.Instr.{Instr}
use llvm_mipt.Sim.State.{Machine, Outcome, ok, stop, get_pc}
use llvm_mipt.Sim.Run.{step, run_loop, RunResult, stopped, out_of_fuel, binary_size, run}
use llvm_mipt.Sim.Isa.Steps.{Ensures}
use llvm_mipt.Sim.Load.{initial, initial-IsValid, load-initial}
use llvm_mipt.Sim.Rounds.{AllForward, At, step-behind, step-inside}

-- A run that has ended, in the one way or the other.
abbrev pub is_over : RunResult → Bool
is_over (out_of_fuel m) = false
is_over _ = true

module _ (instrs : List Instr) (size : ℕ) (f : AllForward instrs) (fits : binary_size instrs ≤ size)
    (small : binary_size instrs + 2 ^ 17 ≤ 2 ^ 32) where
  -- A round at index `k`: it is over, or the index grows.
  round :
      (k : ℕ) (m : Machine)
      → At instrs size k m
      → Ensures (λ m'. (k' : ℕ) × (k < k') × (k < length instrs) × At instrs size k' m') (step m)
  round k m a = elim (Bool-cases (ltb k (length instrs))) [
    | inl e ↦ step-inside instrs size k m a f fits small (ground arith)
    | inr e ↦ let (z, s) = step-behind instrs size k m a (ground arith) in rw s tt
  ]

  run_loop-over :
      (fuel k : ℕ) (m : Machine)
      → At instrs size k m
      → 0 < fuel
      → length instrs < k + fuel
      → is_over (run_loop fuel (binary_size instrs) m) ≡ true
  unfolding run_loop
  run_loop-over zero k m a p l = ground arith
  run_loop-over (suc fuel) k m a p l =
      by_test (get_pc m == binary_size instrs) refl
        (by_round (step m) refl (round k m a) λ k' m' a' q r. run_loop-over fuel k' m' a' q r)
    where
      by_round :
          (o : Outcome Machine)
          → step m ≡ o
          → Ensures (λ m'. (k' : ℕ) × (k < k') × (k < length instrs) × At instrs size k' m') o
          → ((k' : ℕ) (m' : Machine)
              → At instrs size k' m'
              → 0 < fuel
              → length instrs < k' + fuel
              → is_over (run_loop fuel (binary_size instrs) m') ≡ true)
          → is_over (elim o as (λ x. RunResult) [
            | ok m' ↦ run_loop fuel (binary_size instrs) m'
            | stop e ↦ stopped m e
          ])
            ≡ true
      by_round (stop e) x g next = refl
      by_round (ok m') x (k', later, inside, a') next = next k' m' a' (omega arith) (omega arith)

      by_test :
          (t : Bool)
          → (get_pc m == binary_size instrs) ≡ t
          → is_over (elim (step m) as (λ x. RunResult) [
            | ok m' ↦ run_loop fuel (binary_size instrs) m'
            | stop e ↦ stopped m e
          ])
            ≡ true
          → is_over (run_loop (suc fuel) (binary_size instrs) m) ≡ true
      by_test true e x = rw (e, run_loop) refl
      by_test false e x = rw (e, run_loop) x

-- A program that only goes forward, in which no instruction is a store or a `jalr` and every branch
-- is to an instruction after it, ends: with more units of fuel than it has instructions its run
-- halts or is stopped. The program fits in the memory and is 2 ^ 17 bytes short of the address
-- space at least.
pub run-AllForward :
    (fuel memory_size stack_addr : ℕ) (input : List ℕ) (seed : ℕ) (instrs : List Instr)
    → AllForward instrs
    → binary_size instrs ≤ memory_size
    → binary_size instrs + 2 ^ 17 ≤ 2 ^ 32
    → memory_size ≤ 2 ^ 32
    → stack_addr < 2 ^ 32
    → seed < 2 ^ 32
    → length instrs < fuel
    → (r : RunResult) × (run fuel memory_size stack_addr input seed instrs ≡ ok r)
      × (is_over r ≡ true)
unfolding run
run-AllForward fuel memory_size stack_addr input seed instrs f fits small hm hs hd enough =
    let m = initial memory_size stack_addr input seed instrs in
    (
      run_loop fuel (binary_size instrs) m,
      rw (load-initial memory_size stack_addr input seed instrs fits) refl,
      run_loop-over instrs memory_size f fits small fuel 0 m
          (record {
            valid = initial-IsValid memory_size stack_addr input seed instrs hm hs hd;
            at_index = refl;
            same_size = refl;
            image = refl;
          })
          (omega arith) (omega arith),
    )
