-- ===== src/Irgen/Calls.antt =====
-- Calls of the generated functions on the map.
use llvm_mipt.Base.{ℕ, ◌≡◌, refl, ap, ◌∙◌, subst, some, List, [], ◌∷◌, String}
use llvm_mipt.Sim.State.{Event}
use llvm_mipt.Life.{
  map_width, map_height, for_cells, count_cell, update_neighbour_count, update_cell, update_map,
  draw_map,
}
use llvm_mipt.Life.Round.{IsValid, update_neighbour_count-again}
use llvm_mipt.Irgen.Record.{Inst, Pointer, argument, by_pointer, call}
use llvm_mipt.Irgen.Generator.{generated}
use llvm_mipt.Irgen.Semantics.{
  Address, whole_map, address_of, blocks_of, World, Callers, at, Semantics, Reaches, Reaches-trans,
  done, ◌▸◌,
}
use llvm_mipt.Irgen.Blocks.{HasLoops}
use llvm_mipt.Irgen.Loops.{RunsBody, loops_run}
use llvm_mipt.Irgen.Generated.{
  count_block, update_neighbour_count-HasLoops, update_map-HasLoops, draw_map-HasLoops,
}
use llvm_mipt.Irgen.Steps.{on_map_of, on_map_of-for_cells}
use llvm_mipt.Irgen.Counting.{count_body}
use llvm_mipt.Irgen.Drawing.{MapIsValid, draw_turn, draw_body, draw_turn-for_cells}
use llvm_mipt.Irgen.Updating.{update_body}

-- The world after the neighbours were counted.
abbrev pub counted : World → World
counted s = record s { map_of = update_neighbour_count s.map_of }

module _ (sem : Semantics generated) {is : List Inst} {code : List (List Inst)} {par : Address}
    {ns : ℕ → ℕ} {ads : ℕ → Address} {vs : ℕ → ℕ} {cs : Callers} where
  count_call :
      (k : ℕ) (x : Pointer) (s : World)
      → address_of x par ads ≡ whole_map
      → Reaches sem
          (at is code par ns ads vs cs (counted s))
          (at (call k "update_neighbour_count" (by_pointer x ∷ []) ∷ is) code par ns ads vs cs s)
  unfolding update_neighbour_count
  count_call k x s h =
      let waiting : Callers =
        (is, record { code = code; parameter = par; numbers = ns; addresses = ads; variables = vs })
        ∷ cs in
      let (ns', ads', vs', r, v) =
        loops_run sem update_neighbour_count-HasLoops waiting (λ s. Unit) (on_map_of count_cell)
          (count_body sem waiting) sem.unset_number sem.nowhere sem.unset_number s tt in
      rw (← on_map_of-for_cells count_cell s) (
        sem.call_step whole_map h update_neighbour_count-HasLoops.entry
        ▸ Reaches-trans sem r (sem.ret_step ▸ done))

module _ (sem : Semantics generated) {is : List Inst} {code : List (List Inst)} {par : Address}
    {ns : ℕ → ℕ} {ads : ℕ → Address} {vs : ℕ → ℕ} {cs : Callers} where
  -- Of a function that counts the neighbours after its loops.
  pub map_call :
      {name : String} {body : List Inst} {e q : ℕ}
      (has : HasLoops (blocks_of name generated) body (count_block q) e) (Inv : World → Type 0)
      (turn : ℕ → ℕ → World → World)
      → ((callers : Callers) → RunsBody sem has callers Inv turn)
      → (k : ℕ) (x : Pointer) (s : World) → address_of x par ads ≡ whole_map
      → Inv s
      → let t = for_cells map_height map_width turn s in
        Reaches sem
          (at is code par ns ads vs cs (counted t))
          (at (call k name (by_pointer x ∷ []) ∷ is) code par ns ads vs cs s)
        × Inv t
  map_call {name} {body} {e} {q} has Inv turn runs k x s h v =
      let waiting : Callers =
        (is, record { code = code; parameter = par; numbers = ns; addresses = ads; variables = vs })
        ∷ cs in
      let (ns', ads', vs', r, w) =
        loops_run sem has waiting Inv turn (runs waiting) sem.unset_number sem.nowhere
          sem.unset_number s v in
      (
        sem.call_step whole_map h has.entry
            ▸ Reaches-trans sem r (
                Reaches-trans sem
                  (count_call sem q (argument 0) (for_cells map_height map_width turn s) refl)
                  (sem.ret_step ▸ done)),
        w,
      )

  pub update_call :
      (k : ℕ) (x : Pointer) (s : World)
      → address_of x par ads ≡ whole_map
      → Reaches sem
          (at is code par ns ads vs cs (record s { map_of = update_map s.map_of }))
          (at (call k "update_map" (by_pointer x ∷ []) ∷ is) code par ns ads vs cs s)
  unfolding update_map
  update_call k x s h =
      subst
        (λ t.
          Reaches sem (at is code par ns ads vs cs (counted t))
            (at (call k "update_map" (by_pointer x ∷ []) ∷ is) code par ns ads vs cs s))
        (on_map_of-for_cells update_cell s)
        (map_call update_map-HasLoops (λ s. Unit) (on_map_of update_cell) (update_body sem) k x s h
          tt).0

  -- The drawing of a valid map, which its last call counts again.
  pub draw_call :
      (k : ℕ) (x : Pointer) (s : World)
      → address_of x par ads ≡ whole_map
      → IsValid s.map_of
      → (es : List Event) × (draw_map s.map_of s.events ≡ some es)
        × Reaches sem
            (at is code par ns ads vs cs (record s { events = es }))
            (at (call k "draw_map" (by_pointer x ∷ []) ∷ is) code par ns ads vs cs s)
  draw_call k x s h v =
      let (es, d, e) = draw_turn-for_cells s v in
      let from = at (call k "draw_map" (by_pointer x ∷ []) ∷ is) code par ns ads vs cs s in
      let again =
        ap (λ m. record s { map_of = m; events = es }) (update_neighbour_count-again s.map_of v) in
      (
        es,
        d,
        subst (λ t. Reaches sem (at is code par ns ads vs cs t) from) (ap counted e ∙ again)
            (map_call draw_map-HasLoops MapIsValid draw_turn (draw_body sem) k x s h v).0,
      )
