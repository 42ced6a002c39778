-- ===== src/Irgen/Counting.antt =====
-- A run of the generated `update_neighbour_count`.
use llvm_mipt.Base.{ℕ, ◌+◌, ◌-◌, ◌%◌, ◌^◌, ◌<◌, ◌≤◌, ◌≡◌, refl, ap, arith, some}
use llvm_mipt.Life.{neighbours, map_width, map_height, count_cell}
use llvm_mipt.Irgen.Generator.{generated}
use llvm_mipt.Irgen.Semantics.{cell, Callers, Semantics, done, ◌▸◌}
use llvm_mipt.Irgen.Loops.{RunsBody}
use llvm_mipt.Irgen.Generated.{update_neighbour_count-HasLoops}
use llvm_mipt.Irgen.Steps.{on_map_of, index_cell, next_index, sum_bytes}

wrapped :
    (n w k k' : ℕ) → k' ≡ k → k < w → w ≤ 200 → n ≤ 200 → some ((k' + n) % 2 ^ 32) ≡ some (k + n)
wrapped n w k k' e l h g = ap some (omega arith)

module _ (sem : Semantics generated) (cs : Callers) where
  pub count_body :
      RunsBody sem update_neighbour_count-HasLoops cs (λ s. Unit) (on_map_of count_cell)
  unfolding neighbours
  count_body i j ns ads vs s h k e l w v =
      let left = (j + 200 - 1) % 200 in
      let right = (j + 1) % 200 in
      let top = (i + 100 - 1) % 100 in
      let bottom = (i + 1) % 100 in
      let left-lt : left < 200 = omega arith in
      let right-lt : right < 200 = omega arith in
      let top-lt : top < 100 = omega arith in
      let bottom-lt : bottom < 100 = omega arith in
      let p = s.map_of.is_alive in
      (
        _,
        _,
        _,
        sem.binary_step (j + 199) (wrapped 199 200 j _ e w (omega arith) (omega arith))
            ▸ sem.binary_step left (ap some (omega arith))
            ▸ sem.binary_step (j + 1) (wrapped 1 200 j _ e w (omega arith) (omega arith))
            ▸ sem.binary_step right refl
            ▸ sem.binary_step (i + 99) (wrapped 99 100 i _ k l (omega arith) (omega arith))
            ▸ sem.binary_step top (ap some (omega arith))
            ▸ sem.binary_step (i + 1) (wrapped 1 100 i _ k l (omega arith) (omega arith))
            ▸ sem.binary_step bottom refl
            ▸ sem.gep_step (cell 0 top left)
                (index_cell 0 top left _ _ (omega arith) refl refl top-lt left-lt)
            ▸ sem.load_step (p top left) refl
            ▸ sem.gep_step (cell 0 top j) (index_cell 0 top j _ _ (omega arith) refl e top-lt w)
            ▸ sem.load_step (p top j) refl
            ▸ sem.gep_step (cell 0 top right)
                (index_cell 0 top right _ _ (omega arith) refl refl top-lt right-lt)
            ▸ sem.load_step (p top right) refl
            ▸ sem.gep_step (cell 0 i left) (index_cell 0 i left _ _ (omega arith) k refl l left-lt)
            ▸ sem.load_step (p i left) refl
            ▸ sem.gep_step (cell 0 i right)
                (index_cell 0 i right _ _ (omega arith) k refl l right-lt)
            ▸ sem.load_step (p i right) refl
            ▸ sem.gep_step (cell 0 bottom left)
                (index_cell 0 bottom left _ _ (omega arith) refl refl bottom-lt left-lt)
            ▸ sem.load_step (p bottom left) refl
            ▸ sem.gep_step (cell 0 bottom j)
                (index_cell 0 bottom j _ _ (omega arith) refl e bottom-lt w)
            ▸ sem.load_step (p bottom j) refl
            ▸ sem.gep_step (cell 0 bottom right)
                (index_cell 0 bottom right _ _ (omega arith) refl refl bottom-lt right-lt)
            ▸ sem.load_step (p bottom right) refl
            ▸ sem.binary_step ((p top left + p top j) % 2 ^ 8) refl
            ▸ sem.binary_step ((p top right + p i left) % 2 ^ 8) refl
            ▸ sem.binary_step
                (((p top left + p top j) % 2 ^ 8 + (p top right + p i left) % 2 ^ 8) % 2 ^ 8) refl
            ▸ sem.binary_step ((p i right + p bottom left) % 2 ^ 8) refl
            ▸ sem.binary_step ((p bottom j + p bottom right) % 2 ^ 8) refl
            ▸ sem.binary_step
                (((p i right + p bottom left) % 2 ^ 8 + (p bottom j + p bottom right) % 2 ^ 8)
                  % 2 ^ 8)
                refl
            ▸ sem.binary_step (neighbours map_height map_width p i j % 2 ^ 8) (
                ap some (
                  sum_bytes (p top left) (p top j) (p top right) (p i left) (p i right)
                    (p bottom left) (p bottom j) (p bottom right)))
            ▸ sem.gep_step (cell 1 i j) (index_cell 1 i j _ _ (omega arith) k e l w)
            ▸ sem.store_cell_step {f = 1} {r = i} {c = j}
                (neighbours map_height map_width p i j % 2 ^ 8) refl refl refl
            ▸ sem.binary_step (j + 1) (next_index 200 j _ e w (omega arith))
            ▸ sem.store_variable_step {k = 1} (j + 1) refl refl h.at_j
            ▸ sem.br_step update_neighbour_count-HasLoops.cond_j
            ▸ done,
        record { at_i = h.at_i; at_j = h.at_j; i_is = h.i_is; j_is = refl },
        k,
        v,
      )
