-- ===== src/Irgen/Blocks.antt =====
-- The blocks that irgen/main.cpp puts around the body of a function, and a run of each.
use llvm_mipt.Base.{
  ℕ, ◌+◌, ◌<◌, ◌≤◌, ◌≡◌, refl, ap, arith, true, false, some, List, [], ◌∷◌, get_elem?,
}
use llvm_mipt.Base.Word.{slt}
use llvm_mipt.Life.{map_width, map_height}
use llvm_mipt.Irgen.Record.{
  result, Number, address, add_bin, slt_pred, Inst, alloca, load, store, binary, icmp, br, cond_br,
  Module,
}
use llvm_mipt.Irgen.Functions.{int32_ty, get_int32}
use llvm_mipt.Irgen.Semantics.{
  Address, variable, whole_map, World, Config, Callers, at, Semantics, Reaches, done, next,
}

abbrev pub word : ℕ → Number
word k = record { width = 32; operand = result k }

abbrev pub bit : ℕ → Number
bit k = record { width = 1; operand = result k }

abbrev pub entry_block : List Inst
entry_block = alloca 0 int32_ty ∷ alloca 1 int32_ty ∷ store (get_int32 0) (address 0) ∷ br 1 ∷ []

abbrev pub cond_i_block : List Inst
cond_i_block =
    load 4 32 (address 0) ∷ icmp 5 slt_pred (word 4) (get_int32 100) ∷ cond_br (bit 5) 3 5 ∷ []

abbrev pub cond_j_block : List Inst
cond_j_block =
    load 9 32 (address 1) ∷ icmp 10 slt_pred (word 9) (get_int32 200) ∷ cond_br (bit 10) 4 6 ∷ []

abbrev pub loop_i_block : List Inst
loop_i_block = store (get_int32 0) (address 1) ∷ br 2 ∷ []

-- The block `exit_j`, by the number of its first instruction.
abbrev pub exit_j_block : ℕ → List Inst
exit_j_block e = binary e add_bin (word 4) (get_int32 1) ∷ store (word e) (address 0) ∷ br 1 ∷ []

-- Code with the loops around the body, and the block after them.
pub record HasLoops (code : List (List Inst)) (body last : List Inst) (e : ℕ) : Type 0 where
  pub entry : get_elem? code 0 ≡ some entry_block
  pub cond_i : get_elem? code 1 ≡ some cond_i_block
  pub cond_j : get_elem? code 2 ≡ some cond_j_block
  pub loop_i : get_elem? code 3 ≡ some loop_i_block
  pub loop_j : get_elem? code 4 ≡ some body
  pub exit_i : get_elem? code 5 ≡ some last
  pub exit_j : get_elem? code 6 ≡ some (exit_j_block e)
  pub later : 11 < e

-- The variables `i` and `j` of a call of the function.
pub record IsAt (i j : ℕ) (ads : ℕ → Address) (vs : ℕ → ℕ) : Type 0 where
  pub at_i : ads 0 ≡ variable 0
  pub at_j : ads 1 ≡ variable 1
  pub i_is : vs 0 ≡ i
  pub j_is : vs 1 ≡ j

in_range : (a n : ℕ) → a < n → n ≤ 200 → slt a n ≡ true
in_range a n h k = ground arith

at_end : (n : ℕ) → n ≤ 200 → slt n n ≡ false
at_end n k = ground arith

module _ {p : Module} (sem : Semantics p) {code : List (List Inst)} {body last : List Inst} {e : ℕ}
    (has : HasLoops code body last e) (cs : Callers) where
  -- A call of the function on the map.
  abbrev pub on_map : List Inst → (ℕ → ℕ) → (ℕ → Address) → (ℕ → ℕ) → World → Config
  on_map is ns ads vs s = at is code whole_map ns ads vs cs s

  -- From the test of the inner loop into the body.
  pub enter_body :
      (i j : ℕ) (ns : ℕ → ℕ) (ads : ℕ → Address) (vs : ℕ → ℕ) (s : World)
      → IsAt i j ads vs
      → ns 4 ≡ i
      → j < map_width
      → (ns' : ℕ → ℕ) × Reaches sem (on_map body ns' ads vs s) (on_map cond_j_block ns ads vs s)
        × (ns' 4 ≡ i)
        × (ns' 9 ≡ j)
  enter_body i j ns ads vs s h k l = (
    _,
    next (sem.load_step (vs 1) (rw h.at_j refl)) (
        next (sem.icmp_step true (ap some (rw h.j_is (in_range j map_width l (omega arith)))))
          (next (sem.cond_br_step true refl has.loop_j) done)),
    k,
    h.j_is,
  )

  -- From the test of the inner loop, when the row is done, to the test of the outer loop.
  pub leave_row :
      (i : ℕ) (ns : ℕ → ℕ) (ads : ℕ → Address) (vs : ℕ → ℕ) (s : World)
      → IsAt i map_width ads vs
      → ns 4 ≡ i
      → i < map_height
      → (ns' : ℕ → ℕ) × (vs' : ℕ → ℕ) × Reaches sem
          (on_map cond_i_block ns' ads vs' s)
          (on_map cond_j_block ns ads vs s)
        × IsAt (i + 1) map_width ads vs'
  leave_row i ns ads vs s h k l = (
    _,
    _,
    next (sem.load_step (vs 1) (rw h.at_j refl)) (
        next (sem.icmp_step false (ap some (rw h.j_is (at_end map_width (omega arith))))) (
          next (sem.cond_br_step false refl has.exit_j) (
            next (sem.binary_step (i + 1) (ap some (omega (arith, k, l)))) (
              next (sem.store_variable_step {k = 0} (i + 1) refl (ground arith) h.at_i)
                (next (sem.br_step has.cond_i) done))))),
    record { at_i = h.at_i; at_j = h.at_j; i_is = refl; j_is = h.j_is },
  )

  -- From the test of the outer loop to the test of the inner one.
  pub enter_row :
      (i j : ℕ) (ns : ℕ → ℕ) (ads : ℕ → Address) (vs : ℕ → ℕ) (s : World)
      → IsAt i j ads vs
      → i < map_height
      → (ns' : ℕ → ℕ) × (vs' : ℕ → ℕ) × Reaches sem
          (on_map cond_j_block ns' ads vs' s)
          (on_map cond_i_block ns ads vs s)
        × IsAt i 0 ads vs'
        × (ns' 4 ≡ i)
  enter_row i j ns ads vs s h l = (
    _,
    _,
    next (sem.load_step (vs 0) (rw h.at_i refl)) (
        next (sem.icmp_step true (ap some (rw h.i_is (in_range i map_height l (omega arith))))) (
          next (sem.cond_br_step true refl has.loop_i) (
            next (sem.store_variable_step {k = 1} 0 refl refl h.at_j)
              (next (sem.br_step has.cond_j) done)))),
    record { at_i = h.at_i; at_j = h.at_j; i_is = h.i_is; j_is = refl },
    h.i_is,
  )

  pub leave_loops :
      (j : ℕ) (ns : ℕ → ℕ) (ads : ℕ → Address) (vs : ℕ → ℕ) (s : World)
      → IsAt map_height j ads vs
      → (ns' : ℕ → ℕ) × Reaches sem (on_map last ns' ads vs s) (on_map cond_i_block ns ads vs s)
  leave_loops j ns ads vs s h = (
    _,
    next (sem.load_step (vs 0) (rw h.at_i refl)) (
        next (sem.icmp_step false (ap some (rw h.i_is (at_end map_height (omega arith)))))
          (next (sem.cond_br_step false refl has.exit_i) done)),
  )

  pub enter_loops :
      (ns : ℕ → ℕ) (ads : ℕ → Address) (vs : ℕ → ℕ) (s : World)
      → (ads' : ℕ → Address) × (vs' : ℕ → ℕ) × Reaches sem
          (on_map cond_i_block ns ads' vs' s)
          (on_map entry_block ns ads vs s)
        × IsAt 0 (vs 1) ads' vs'
  enter_loops ns ads vs s = (
    _,
    _,
    next (sem.alloca_step (variable 0) refl) (
        next (sem.alloca_step (variable 1) refl) (
          next (sem.store_variable_step {k = 0} 0 refl refl refl)
            (next (sem.br_step has.cond_i) done))),
    record { at_i = refl; at_j = refl; i_is = refl; j_is = refl },
  )
