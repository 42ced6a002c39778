-- ===== src/Irgen/Drawing.antt =====
-- A run of the generated `draw_map`, on a map that is valid.
use llvm_mipt.Base.{
  ℕ, ◌+◌, ◌<◌, ◌≡◌, refl, ap, ◌∙◌, arith, Bool-cases, inl, inr, true, false, not, ◌==◌, Option,
  none, some, List, ◌∷◌, get_elem?,
}
use llvm_mipt.Sim.State.{Event, sim_set_pixel}
use llvm_mipt.Base.Loops.{for_range, for_range_rel}
use llvm_mipt.Life.{
  Map, map_width, map_height, color_scheme, pixel_shape, draw_cell, draw_map, for_cells,
}
use llvm_mipt.Life.Rule.{neighbours-le}
use llvm_mipt.Life.Round.{IsValid}
use llvm_mipt.Life.Frames.{color_total}
use llvm_mipt.Irgen.Generator.{generated}
use llvm_mipt.Irgen.Semantics.{
  Address, World, cell, element, Callers, emit_event, Semantics, Reaches, done, ◌▸◌,
}
use llvm_mipt.Irgen.Blocks.{cond_j_block, IsAt, on_map}
use llvm_mipt.Irgen.Loops.{RunsBody}
use llvm_mipt.Irgen.Generated.{
  draw_test, draw_map-HasLoops, draw_map_block_inc_j, draw_map_block_draw, generated_color_scheme,
}
use llvm_mipt.Irgen.Steps.{index_cell, next_index}

abbrev pub with_events : Option (List Event) → World → World
with_events none s = s
with_events (some es) s = record s { events = es }

-- A turn of the loops.
abbrev pub draw_turn : ℕ → ℕ → World → World
draw_turn i j s = with_events (draw_cell s.map_of i j (some s.events)) s

abbrev pub MapIsValid : World → Type 0
MapIsValid s = IsValid s.map_of

-- Each cell of a valid map has a color.
pub scheme_color :
    (m : Map) (i j : ℕ)
    → IsValid m
    → i < map_height
    → j < map_width
    → (color : ℕ) × (get_elem? color_scheme (m.neighbour_count i j) ≡ some color)
scheme_color m i j v l w =
    color_total (m.neighbour_count i j)
      (omega (arith, v.counted i j l w, neighbours-le m.is_alive i j v.binary l w))

draw_turn-dead : (i j : ℕ) (s : World) → (s.map_of.is_alive i j == 0) ≡ true → draw_turn i j s ≡ s
draw_turn-dead i j s dead = rw dead refl

draw_turn-live :
    (i j color : ℕ) (s : World)
    → (s.map_of.is_alive i j == 0) ≡ false
    → get_elem? color_scheme (s.map_of.neighbour_count i j) ≡ some color
    → draw_turn i j s ≡ emit_event (sim_set_pixel j i color pixel_shape) s
draw_turn-live i j color s live e = rw (live, e) refl

module _ (sem : Semantics generated) (cs : Callers) where
  -- The runs of the body on the cell `i, j` that end in the world `t`.
  abbrev Runs : ℕ → ℕ → (ℕ → ℕ) → (ℕ → Address) → (ℕ → ℕ) → World → World → Type 0
  Runs i j ns ads vs s t =
      (ns' : ℕ → ℕ) × (ads' : ℕ → Address) × (vs' : ℕ → ℕ) × Reaches sem
        (on_map sem draw_map-HasLoops cs cond_j_block ns' ads' vs' t)
        (on_map sem draw_map-HasLoops cs draw_test ns ads vs s)
      × IsAt i (j + 1) ads' vs'
      × (ns' 4 ≡ i)

  dead-Runs :
      (i j : ℕ) (ns : ℕ → ℕ) (ads : ℕ → Address) (vs : ℕ → ℕ) (s : World)
      → IsAt i j ads vs
      → ns 4 ≡ i
      → ns 9 ≡ j
      → i < map_height
      → j < map_width
      → (s.map_of.is_alive i j == 0) ≡ true
      → Runs i j ns ads vs s s
  dead-Runs i j ns ads vs s h k e l w dead = (
    _,
    _,
    _,
    sem.gep_step (cell 0 i j) (index_cell 0 i j _ _ (omega arith) k e l w)
        ▸ sem.load_step (s.map_of.is_alive i j) refl
        ▸ sem.icmp_step false (ap (λ b. some (not b)) dead)
        ▸ sem.cond_br_step false refl draw_map_block_inc_j
        ▸ sem.binary_step (j + 1) (next_index 200 j _ e w (omega arith))
        ▸ sem.store_variable_step {k = 1} (j + 1) refl refl h.at_j
        ▸ sem.br_step draw_map-HasLoops.cond_j
        ▸ done,
    record { at_i = h.at_i; at_j = h.at_j; i_is = h.i_is; j_is = refl },
    k,
  )

  live-Runs :
      (i j color : ℕ) (ns : ℕ → ℕ) (ads : ℕ → Address) (vs : ℕ → ℕ) (s : World)
      → IsAt i j ads vs
      → ns 4 ≡ i
      → ns 9 ≡ j
      → i < map_height
      → j < map_width
      → (s.map_of.is_alive i j == 0) ≡ false
      → get_elem? color_scheme (s.map_of.neighbour_count i j) ≡ some color
      → Runs i j ns ads vs s (emit_event (sim_set_pixel j i color pixel_shape) s)
  live-Runs i j color ns ads vs s h k e l w live c = (
    _,
    _,
    _,
    sem.gep_step (cell 0 i j) (index_cell 0 i j _ _ (omega arith) k e l w)
        ▸ sem.load_step (s.map_of.is_alive i j) refl
        ▸ sem.icmp_step true (ap (λ b. some (not b)) live)
        ▸ sem.cond_br_step true refl draw_map_block_draw
        ▸ sem.gep_step (cell 1 i j) (index_cell 1 i j _ _ (omega arith) k e l w)
        ▸ sem.load_step (s.map_of.neighbour_count i j) refl
        ▸ sem.gep_step (element "color_scheme" (s.map_of.neighbour_count i j)) refl
        ▸ sem.load_step color (rw generated_color_scheme c)
        ▸ sem.set_pixel_step j i color pixel_shape e k refl refl
        ▸ sem.br_step draw_map_block_inc_j
        ▸ sem.binary_step (j + 1) (next_index 200 j _ e w (omega arith))
        ▸ sem.store_variable_step {k = 1} (j + 1) refl refl h.at_j
        ▸ sem.br_step draw_map-HasLoops.cond_j
        ▸ done,
    record { at_i = h.at_i; at_j = h.at_j; i_is = h.i_is; j_is = refl },
    k,
  )

  pub draw_body : RunsBody sem draw_map-HasLoops cs MapIsValid draw_turn
  draw_body i j ns ads vs s h k e l w v = elim (Bool-cases (s.map_of.is_alive i j == 0)) [
    | inl dead ↦
        let (ns', ads', vs', r, h', k') = dead-Runs i j ns ads vs s h k e l w dead in
        rw (draw_turn-dead i j s dead) (ns', ads', vs', r, h', k', v)
    | inr live ↦
        let (color, c) = scheme_color s.map_of i j v l w in
        let (ns', ads', vs', r, h', k') = live-Runs i j color ns ads vs s h k e l w live c in
        rw (draw_turn-live i j color s live c) (ns', ads', vs', r, h', k', v)
  ]

-- What the loops of `draw_map` and those of life_game/src/life.c have done.
abbrev Agree : World → Option (List Event) → World → Type 0
Agree s o t = (es : List Event) × (o ≡ some es) × (t ≡ record s { events = es })

draw_turn-Agree :
    (s : World) (i j : ℕ) (o : Option (List Event)) (t : World)
    → IsValid s.map_of
    → i < map_height
    → j < map_width
    → Agree s o t
    → Agree s (draw_cell s.map_of i j o) (draw_turn i j t)
draw_turn-Agree s i j o t v l w (es, e, f) =
    let (fs, g) = total in
    (
      fs,
      ap (draw_cell s.map_of i j) e ∙ g,
      ap (draw_turn i j) f ∙ ap (λ q. with_events q (record s { events = es })) g,
    )
  where
    total : (fs : List Event) × (draw_cell s.map_of i j (some es) ≡ some fs)
    total = elim (Bool-cases (s.map_of.is_alive i j == 0)) [
      | inl dead ↦ (es, rw dead refl)
      | inr live ↦
          let (color, c) = scheme_color s.map_of i j v l w in
          (sim_set_pixel j i color pixel_shape ∷ es, rw (live, c) refl)
    ]

-- The loops draw what life_game/src/life.c does.
pub draw_turn-for_cells :
    (s : World)
    → IsValid s.map_of
    → (es : List Event) × (draw_map s.map_of s.events ≡ some es)
      × (for_cells map_height map_width draw_turn s ≡ record s { events = es })
unfolding draw_map for_cells
draw_turn-for_cells s v =
    for_range_rel (Agree s) (λ i. for_range map_width 0 (λ j. draw_cell s.map_of i j))
      (λ i. for_range map_width 0 (draw_turn i)) map_height 0 map_height (omega arith)
      (λ i o t u l a.
        for_range_rel (Agree s) (λ j. draw_cell s.map_of i j) (draw_turn i) map_width 0 map_width
          (omega arith) (λ j o' t' u' w a'. draw_turn-Agree s i j o' t' v l w a') o t a)
      (some s.events) s (s.events, refl, refl)
