-- ===== src/Irgen/Updating.antt =====
-- A run of the generated `update_map`.
use llvm_mipt.Base.{◌+◌, refl, ap, ◌∙◌, arith, ◌&&◌, ◌||◌, not, some, ◌==◌}
use llvm_mipt.Life.{of_bool, lives_on, update_cell}
use llvm_mipt.Irgen.Generator.{generated}
use llvm_mipt.Irgen.Semantics.{cell, Callers, Semantics, done, ◌▸◌}
use llvm_mipt.Irgen.Loops.{RunsBody}
use llvm_mipt.Irgen.Generated.{update_map-HasLoops}
use llvm_mipt.Irgen.Steps.{
  on_map_of, index_cell, next_index, and_bits, or_bits, not_bit, three_conditions,
}

module _ (sem : Semantics generated) (cs : Callers) where
  pub update_body : RunsBody sem update_map-HasLoops cs (λ s. Unit) (on_map_of update_cell)
  update_body i j ns ads vs s h k e l w v =
      let alive = not (s.map_of.is_alive i j == 0) in
      let two = s.map_of.neighbour_count i j == 2 in
      let three = s.map_of.neighbour_count i j == 3 in
      (
        _,
        _,
        _,
        sem.gep_step (cell 0 i j) (index_cell 0 i j _ _ (omega arith) k e l w)
            ▸ sem.load_step (s.map_of.is_alive i j) refl
            ▸ sem.icmp_step alive refl
            ▸ sem.not_step (of_bool (not alive)) (not_bit alive)
            ▸ sem.gep_step (cell 1 i j) (index_cell 1 i j _ _ (omega arith) k e l w)
            ▸ sem.load_step (s.map_of.neighbour_count i j) refl
            ▸ sem.icmp_step two refl
            ▸ sem.icmp_step three refl
            ▸ sem.binary_step (of_bool (alive && two)) (ap some (and_bits alive two))
            ▸ sem.binary_step (of_bool (alive && three)) (ap some (and_bits alive three))
            ▸ sem.binary_step (of_bool (not alive && three)) (ap some (and_bits (not alive) three))
            ▸ sem.binary_step (of_bool (alive && two || alive && three))
                (ap some (or_bits (alive && two) (alive && three)))
            ▸ sem.binary_step
                (of_bool (lives_on (s.map_of.is_alive i j) (s.map_of.neighbour_count i j)))
                (ap some (
                  or_bits (alive && two || alive && three) (not alive && three)
                  ∙ ap of_bool
                      (three_conditions (s.map_of.is_alive i j) (s.map_of.neighbour_count i j))))
            ▸ sem.zext_step
                (of_bool (lives_on (s.map_of.is_alive i j) (s.map_of.neighbour_count i j))) refl
            ▸ sem.store_cell_step {f = 0} {r = i} {c = j}
                (of_bool (lives_on (s.map_of.is_alive i j) (s.map_of.neighbour_count i j))) refl
                refl refl
            ▸ sem.binary_step (j + 1) (next_index 200 j _ e w (omega arith))
            ▸ sem.store_variable_step {k = 1} (j + 1) refl refl h.at_j
            ▸ sem.br_step update_map-HasLoops.cond_j
            ▸ done,
        record { at_i = h.at_i; at_j = h.at_j; i_is = h.i_is; j_is = refl },
        k,
        v,
      )
