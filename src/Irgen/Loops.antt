-- ===== src/Irgen/Loops.antt =====
-- A run of the two loops that irgen/main.cpp puts around the body of a function.
use llvm_mipt.Base.{ℕ, zero, suc, ◌+◌, ◌<◌, ◌≡◌, arith, List}
use llvm_mipt.Base.Loops.{for_range}
use llvm_mipt.Life.{map_width, map_height, for_cells}
use llvm_mipt.Irgen.Record.{Inst, Module}
use llvm_mipt.Irgen.Semantics.{Address, World, Callers, Semantics, Reaches, Reaches-trans}
use llvm_mipt.Irgen.Blocks.{
  entry_block, cond_i_block, cond_j_block, HasLoops, IsAt, on_map, enter_body, leave_row, enter_row,
  leave_loops, enter_loops,
}

module _ {p : Module} (sem : Semantics p) {code : List (List Inst)} {body last : List Inst} {e : ℕ}
    (has : HasLoops code body last e) (cs : Callers) where
  -- What the body of the loops does in a turn, from a world that `Inv` holds of.
  abbrev pub RunsBody : (World → Type 0) → (ℕ → ℕ → World → World) → Type 0
  RunsBody Inv turn =
      (i j : ℕ) (ns : ℕ → ℕ) (ads : ℕ → Address) (vs : ℕ → ℕ) (s : World)
      → IsAt i j ads vs
      → ns 4 ≡ i
      → ns 9 ≡ j
      → i < map_height
      → j < map_width
      → Inv s
      → (ns' : ℕ → ℕ) × (ads' : ℕ → Address) × (vs' : ℕ → ℕ) × Reaches sem
          (on_map sem has cs cond_j_block ns' ads' vs' (turn i j s))
          (on_map sem has cs body ns ads vs s)
        × IsAt i (j + 1) ads' vs'
        × (ns' 4 ≡ i)
        × Inv (turn i j s)

  module _ (Inv : World → Type 0) (turn : ℕ → ℕ → World → World) (runs : RunsBody Inv turn) where
    row_runs :
        (i todo j : ℕ) (ns : ℕ → ℕ) (ads : ℕ → Address) (vs : ℕ → ℕ) (s : World)
        → j + todo ≡ map_width
        → IsAt i j ads vs
        → ns 4 ≡ i
        → i < map_height
        → Inv s
        → let t = for_range todo j (turn i) s in
          (ns' : ℕ → ℕ) × (ads' : ℕ → Address) × (vs' : ℕ → ℕ) × Reaches sem
            (on_map sem has cs cond_i_block ns' ads' vs' t)
            (on_map sem has cs cond_j_block ns ads vs s)
          × IsAt (i + 1) map_width ads' vs'
          × Inv t
    unfolding for_range
    row_runs i zero j ns ads vs s e h k l v =
        let end : j ≡ map_width = omega arith in
        let (ns', vs', r, h') = leave_row sem has cs i ns ads vs s (rw (← end) h) k l in
        (ns', ads, vs', r, h', v)
    row_runs i (suc todo) j ns ads vs s e h k l v =
        let (ns1, r1, k1, e1) = enter_body sem has cs i j ns ads vs s h k (omega arith) in
        let (ns2, ads2, vs2, r2, h2, k2, v2) = runs i j ns1 ads vs s h k1 e1 l (omega arith) v in
        let (ns3, ads3, vs3, r3, h3, v3) =
          row_runs i todo (j + 1) ns2 ads2 vs2 (turn i j s) (omega arith) h2 k2 l v2 in
        (ns3, ads3, vs3, Reaches-trans sem r1 (Reaches-trans sem r2 r3), h3, v3)

    rows_run :
        (todo i j : ℕ) (ns : ℕ → ℕ) (ads : ℕ → Address) (vs : ℕ → ℕ) (s : World)
        → i + todo ≡ map_height
        → IsAt i j ads vs
        → Inv s
        → let t = for_range todo i (λ k. for_range map_width 0 (turn k)) s in
          (ns' : ℕ → ℕ) × (ads' : ℕ → Address) × (vs' : ℕ → ℕ) × Reaches sem
            (on_map sem has cs last ns' ads' vs' t)
            (on_map sem has cs cond_i_block ns ads vs s)
          × Inv t
    unfolding for_range
    rows_run zero i j ns ads vs s e h v =
        let end : i ≡ map_height = omega arith in
        let (ns', r) = leave_loops sem has cs j ns ads vs s (rw (← end) h) in (ns', ads, vs, r, v)
    rows_run (suc todo) i j ns ads vs s e h v =
        let (ns1, vs1, r1, h1, k1) = enter_row sem has cs i j ns ads vs s h (omega arith) in
        let (ns2, ads2, vs2, r2, h2, v2) =
          row_runs i map_width 0 ns1 ads vs1 s (omega arith) h1 k1 (omega arith) v in
        let (ns3, ads3, vs3, r3, v3) =
          rows_run todo (i + 1) map_width ns2 ads2 vs2 (for_range map_width 0 (turn i) s)
            (omega arith) h2 v2 in
        (ns3, ads3, vs3, Reaches-trans sem r1 (Reaches-trans sem r2 r3), v3)

    -- From the start of the function to the block after the loops.
    pub loops_run :
        (ns : ℕ → ℕ) (ads : ℕ → Address) (vs : ℕ → ℕ) (s : World)
        → Inv s
        → let t = for_cells map_height map_width turn s in
          (ns' : ℕ → ℕ) × (ads' : ℕ → Address) × (vs' : ℕ → ℕ) × Reaches sem
            (on_map sem has cs last ns' ads' vs' t)
            (on_map sem has cs entry_block ns ads vs s)
          × Inv t
    unfolding for_cells
    loops_run ns ads vs s v =
        let (ads1, vs1, r1, h1) = enter_loops sem has cs ns ads vs s in
        let (ns2, ads2, vs2, r2, v2) =
          rows_run map_height 0 (vs 1) ns ads1 vs1 s (omega arith) h1 v in
        (ns2, ads2, vs2, Reaches-trans sem r1 r2, v2)
