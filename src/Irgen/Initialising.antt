-- ===== src/Irgen/Initialising.antt =====
-- A run of the generated `init_map`. Its remainder is that of a signed number, where
-- life_game/src/life.c converts the random number to `unsigned` first.
use llvm_mipt.Base.{ℕ, ◌+◌, ◌≡◌, refl, arith, ◌==◌, List}
use llvm_mipt.Base.Word.{int32}
use llvm_mipt.Sim.Device.{next_seed}
use llvm_mipt.Sim.State.{Event}
use llvm_mipt.Life.{put, of_bool}
use llvm_mipt.Irgen.Generator.{generated}
use llvm_mipt.Irgen.Semantics.{signed_rem, World, cell, Callers, Semantics, done, ◌▸◌}
use llvm_mipt.Irgen.Loops.{RunsBody}
use llvm_mipt.Irgen.Generated.{init_map-HasLoops}
use llvm_mipt.Irgen.Steps.{index_cell, next_index}

-- The cell that a random number gives, by the sign of the number.
abbrev pub signed_cell : ℕ → ℕ
signed_cell n = of_bool (signed_rem (int32 n) 5 == 0)

-- A turn of the loops of the generated `init_map`.
abbrev pub generated_init_cell : ℕ → ℕ → World → World
generated_init_cell i j s =
    let n = next_seed s.seed in
    record s {
      map_of = record (s.map_of) { is_alive = put (s.map_of).is_alive i j (signed_cell n) };
      seed = n;
    }

module _ (sem : Semantics generated) (es : List Event) (cs : Callers) where
  pub init_body : RunsBody sem init_map-HasLoops cs (λ s. s.events ≡ es) generated_init_cell
  init_body i j ns ads vs s h k e l w v =
      let n = next_seed s.seed in
      (
        _,
        _,
        _,
        sem.rand_step
            ▸ sem.binary_step (signed_rem (int32 n) 5) refl
            ▸ sem.icmp_step (signed_rem (int32 n) 5 == 0) refl
            ▸ sem.zext_step (signed_cell n) refl
            ▸ sem.gep_step (cell 0 i j) (index_cell 0 i j _ _ (omega arith) k e l w)
            ▸ sem.store_cell_step {f = 0} {r = i} {c = j} (signed_cell n) refl refl refl
            ▸ sem.binary_step (j + 1) (next_index 200 j _ e w (omega arith))
            ▸ sem.store_variable_step {k = 1} (j + 1) refl refl h.at_j
            ▸ sem.br_step init_map-HasLoops.cond_j
            ▸ done,
        record { at_i = h.at_i; at_j = h.at_j; i_is = h.i_is; j_is = refl },
        k,
        v,
      )
