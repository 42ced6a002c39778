-- ===== src/Irgen/Program.antt =====
-- A run of the generated `main`, beside the program of life_game/src/life.c.
use llvm_mipt.Base.{
  Bool, true, ◌&&◌, ℕ, zero, suc, ◌<◌, ◌≡◌, refl, sym, ap, ap₂, ◌∙◌, not, ◌==◌, some, List, [], ◌∷◌,
}
use llvm_mipt.Base.Word.{int32}
use llvm_mipt.Sim.State.{Event, sim_clear, sim_display}
use llvm_mipt.Sim.Device.{next_seed}
use llvm_mipt.Life.{
  Map, map_width, map_height, for_cells, background_color, update_map, drawn, frame, then_frame,
  frames,
}
use llvm_mipt.Life.Rule.{generations}
use llvm_mipt.Life.Filled.{filled-IsBinary}
use llvm_mipt.Life.Round.{IsValid, update_neighbour_count-IsValid, update_map-IsValid}
use llvm_mipt.Life.Frames.{lit, frames-lit}
use llvm_mipt.Irgen.Record.{Fn, address}
use llvm_mipt.Irgen.Functions.{
  create_update_neighbour_count_func, create_draw_map_func, create_update_map_func,
  create_init_map_func,
}
use llvm_mipt.Irgen.Generator.{generated, create_module, create_main_func, lazy_function_creator}
use llvm_mipt.Irgen.Semantics.{
  whole_map, blocks_of, signed_rem, emit_event, World, Config, at, Semantics, Reaches,
  Reaches-trans, done, ◌▸◌, set_address,
}
use llvm_mipt.Irgen.Generated.{main_entry, main_loop, main_block_loop, init_map-HasLoops}
use llvm_mipt.Irgen.Initialising.{generated_init_cell, init_body}
use llvm_mipt.Irgen.Calls.{counted, map_call, update_call, draw_call}

-- Each function has a body, or `LazyFunctionCreator` finds it.
abbrev pub are_resolved : List Fn → Bool
are_resolved [] = true
are_resolved (f ∷ fs) =
    (elim f.blocks [ [] ↦ lazy_function_creator f.name | b ∷ bs ↦ true ]) && are_resolved fs

-- What `main` starts with: the map as the stack left it, and the seed.
abbrev pub start_world : Map → ℕ → World
start_world m seed = record { map_of = m; events = []; seed = seed }

-- The map that the generated `init_map` leaves.
pub first_map : Map → ℕ → Map
first_map m seed =
    (counted (for_cells map_height map_width generated_init_cell (start_world m seed))).map_of

pub first_map-IsValid : (m : Map) (seed : ℕ) → IsValid (first_map m seed)
unfolding first_map
first_map-IsValid m seed = update_neighbour_count-IsValid _ (
    filled-IsBinary (λ s. s.map_of.is_alive) (λ i j s. signed_rem (int32 (next_seed s.seed)) 5 == 0)
      generated_init_cell (λ i j s. refl) (start_world m seed))

module _ (sem : Semantics generated) where
  -- `main` at its entry.
  abbrev pub at_main : World → Config
  at_main s =
      at main_entry (blocks_of "main" generated) (sem.nowhere 0) sem.unset_number sem.nowhere
        sem.unset_number [] s

  -- `main` at the start of its loop.
  abbrev pub at_loop : World → Config
  at_loop s =
      at main_loop (blocks_of "main" generated) (sem.nowhere 0) sem.unset_number
        (set_address sem.nowhere 0 whole_map) sem.unset_number [] s

  -- The calls before the loop.
  main_starts :
      (m : Map) (seed : ℕ)
      → (s : World) × Reaches sem (at_loop s) (at_main (start_world m seed))
        × (s.map_of ≡ first_map m seed)
        × (s.events ≡ [])
  unfolding first_map
  main_starts m seed =
      let (r, e) =
        map_call sem init_map-HasLoops (λ s. s.events ≡ []) generated_init_cell (init_body sem []) 1
          (address 0) (start_world m seed) refl refl in
      (
        _,
        sem.alloca_step whole_map refl ▸ Reaches-trans sem r (sem.br_step main_block_loop ▸ done),
        refl,
        e,
      )

  -- A round of the loop.
  round_runs :
      (s : World)
      → IsValid s.map_of
      → (t : World) × Reaches sem (at_loop t) (at_loop s)
        × (frame (s.map_of, s.events) ≡ some (t.map_of, t.events))
        × IsValid t.map_of
  unfolding frame
  round_runs s v =
      let (es, d, r) =
        draw_call sem {vs = sem.unset_number} 4 (address 0)
          (emit_event (sim_clear background_color) s) refl v in
      (
        record s { map_of = update_map s.map_of; events = sim_display ∷ es },
        sem.clear_step background_color refl
            ▸ Reaches-trans sem r (
                sem.display_step
                ▸ Reaches-trans sem
                    (update_call sem 6 (address 0) (record s { events = sim_display ∷ es }) refl)
                    (sem.br_step main_block_loop ▸ done)),
        ap (drawn s.map_of) d,
        update_map-IsValid s.map_of v,
      )

  -- So many rounds, which are those of life_game/src/life.c.
  rounds_run :
      (n : ℕ) (s : World)
      → IsValid s.map_of
      → (t : World) × Reaches sem (at_loop t) (at_loop s)
        × (frames n (s.map_of, s.events) ≡ some (t.map_of, t.events))
        × IsValid t.map_of
  unfolding frames
  rounds_run zero s v = (s, done, refl, v)
  rounds_run (suc n) s v =
      let (t, r, e, w) = rounds_run n s v in
      let (u, q, f, x) = round_runs t w in (u, Reaches-trans sem r q, ap then_frame e ∙ f, x)

  -- `main` builds the module `generated`, each function of which has a body or is one that
  -- `LazyFunctionCreator` finds. However LLVM runs it within its documented semantics, and from
  -- whatever the stack holds and any seed, the generated program comes to the end of its round `n
  -- + 1`. It has then made the same calls of the display, and has the same map, as the rounds of
  -- the C program from the first map that the generated code has made, and the screen shows
  -- exactly the live cells of the generation `n` on the torus after that map.
  pub main-frames :
      (n : ℕ) (m : Map) (seed : ℕ)
      → (create_module ≡ some generated)
        × (are_resolved generated.functions ≡ true)
        × (s : World) × Reaches sem (at_loop s) (at_main (start_world m seed))
        × (frames (suc n) (first_map m seed, []) ≡ some (s.map_of, s.events))
        × ((i j : ℕ)
            → i < map_height
            → j < map_width
            → lit s.events i j ≡ not (generations n (first_map m seed).is_alive i j == 0))
  unfolding generated create_module create_update_neighbour_count_func create_draw_map_func
      create_update_map_func create_init_map_func create_main_func
  main-frames n m seed =
      let (s, r, e, f) = main_starts m seed in
      let (t, q, g, v) = rounds_run (suc n) s (rw e (first_map-IsValid m seed)) in
      let (u, h, d) = frames-lit n (first_map m seed) (first_map-IsValid m seed) in
      let same : frames (suc n) (first_map m seed, []) ≡ some (t.map_of, t.events) =
        ap₂ (λ m es. frames (suc n) (m, es)) (sym e) (sym f) ∙ g in
      let last : u ≡ (t.map_of, t.events) = cc in
      (
        refl,
        refl,
        t,
        Reaches-trans sem r q,
        same,
        λ i j k l. ap (λ (w : Map × List Event). lit w.1 i j) (sym last) ∙ d i j k l,
      )
