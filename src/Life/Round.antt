-- ===== src/Life/Round.antt =====
-- One step of the map: `update_neighbour_count`, `update_map` and `init_map`.
use llvm_mipt.Base.{
  ℕ, ◌%◌, ◌^◌, ◌<◌, ◌≤◌, ◌≡◌, refl, ap, ap₂, ◌∙◌, arith, ◌==◌, Bool-cases, inl, inr, fun_ext,
}
use llvm_mipt.Base.Loops.{for_range, for_range_inv}
use llvm_mipt.Life.{
  Map, Plane, put, map_width, map_height, neighbours, lives_on, of_bool, for_cells, count_cell,
  update_neighbour_count, update_cell, update_map, init_cell, init_map, initial_density_ratio,
}
use llvm_mipt.Life.Planes.{fill_cell, for_cells-fill_cell, for_cells_on}
use llvm_mipt.Sim.Device.{next_seed}
use llvm_mipt.Life.Filled.{filled-IsBinary}
use llvm_mipt.Life.Rule.{
  generation, IsBinary, SameScreen, neighbours-le, lives_on-generation, generation-IsBinary,
}

-- The cells are 0 or 1, and each count is the number of live neighbours.
pub record IsValid (m : Map) : Type 0 where
  pub binary : IsBinary m.is_alive
  pub counted :
      (i j : ℕ)
      → i < map_height
      → j < map_width
      → m.neighbour_count i j ≡ neighbours map_height map_width m.is_alive i j

abbrev count_value : Plane → ℕ → ℕ → ℕ → ℕ
count_value p i j v = neighbours map_height map_width p i j % 2 ^ 8

counted_map :
    (m : Map)
    → update_neighbour_count m ≡ record m {
      neighbour_count =
          for_cells map_height map_width (fill_cell (count_value m.is_alive)) m.neighbour_count;
    }
unfolding update_neighbour_count
counted_map m =
    for_cells_on (λ p. record m { neighbour_count = p }) (fill_cell (count_value m.is_alive))
      count_cell (λ i j p. refl) map_height map_width m.neighbour_count

counted_cell :
    (m : Map) (i j : ℕ)
    → i < map_height
    → j < map_width
    → (update_neighbour_count m).neighbour_count i j
      ≡ neighbours map_height map_width m.is_alive i j % 2 ^ 8
counted_cell m i j u v =
    ap (λ (t : Map). t.neighbour_count i j) (counted_map m)
    ∙ for_cells-fill_cell (count_value m.is_alive) map_height map_width i j m.neighbour_count u v

counted_alive : (m : Map) → (update_neighbour_count m).is_alive ≡ m.is_alive
counted_alive m = ap (λ (t : Map). t.is_alive) (counted_map m)

-- Counting makes any map with cells 0 and 1 valid.
pub update_neighbour_count-IsValid :
    (m : Map) → IsBinary m.is_alive → IsValid (update_neighbour_count m)
update_neighbour_count-IsValid m b = record {
  binary = λ i j u v. rw (counted_alive m) (b i j u v);
  counted = λ i j u v.
      counted_cell m i j u v
      ∙ (let small : neighbours map_height map_width m.is_alive i j ≤ 8 =
            neighbours-le m.is_alive i j b u v in
          rw (counted_alive m) (omega arith));
}

abbrev next_value : Plane → ℕ → ℕ → ℕ → ℕ
next_value count i j v = of_bool (lives_on v (count i j))

updated_map :
    (m : Map)
    → for_cells map_height map_width update_cell m ≡ record m {
      is_alive =
          for_cells map_height map_width (fill_cell (next_value m.neighbour_count)) m.is_alive;
    }
updated_map m =
    for_cells_on (λ p. record m { is_alive = p }) (fill_cell (next_value m.neighbour_count))
      update_cell (λ i j p. refl) map_height map_width m.is_alive

updated_cell :
    (m : Map) (i j : ℕ)
    → IsValid m
    → i < map_height
    → j < map_width
    → (for_cells map_height map_width update_cell m).is_alive i j ≡ generation m.is_alive i j
updated_cell m i j h u v =
    ap (λ (t : Map). t.is_alive i j) (updated_map m)
    ∙ for_cells-fill_cell (next_value m.neighbour_count) map_height map_width i j m.is_alive u v
    ∙ ap (λ n. of_bool (lives_on (m.is_alive i j) n)) (h.counted i j u v)
    ∙ lives_on-generation m.is_alive i j h.binary u v

pub update_map-SameScreen :
    (m : Map) → IsValid m → SameScreen (update_map m).is_alive (generation m.is_alive)
unfolding update_map
update_map-SameScreen m h i j u v =
    ap (λ (p : Plane). p i j) (counted_alive (for_cells map_height map_width update_cell m))
    ∙ updated_cell m i j h u v

pub update_map-IsValid : (m : Map) → IsValid m → IsValid (update_map m)
unfolding update_map
update_map-IsValid m h =
    update_neighbour_count-IsValid (for_cells map_height map_width update_cell m)
      (λ i j u v. rw (updated_cell m i j h u v) (generation-IsBinary m.is_alive h.binary i j u v))

pub init_map-IsValid : (s : Map × ℕ) → IsValid (init_map s).0
unfolding init_map
init_map-IsValid s = update_neighbour_count-IsValid _ (
    filled-IsBinary (λ t. t.0.is_alive) (λ i j t. next_seed t.1 % initial_density_ratio == 0)
      init_cell (λ i j t. refl) s)

-- Counting again changes nothing.
count_cell-again :
    (m : Map) (i j : ℕ) → IsValid m → i < map_height → j < map_width → count_cell i j m ≡ m
count_cell-again m i j h u v =
    ap (λ p. record m { neighbour_count = p }) (fun_ext λ r. fun_ext λ c. same r c)
  where
    here : neighbours map_height map_width m.is_alive i j % 2 ^ 8 ≡ m.neighbour_count i j
    here = omega (arith, h.counted i j u v, neighbours-le m.is_alive i j h.binary u v)

    same :
        (r c : ℕ)
        → put m.neighbour_count i j (neighbours map_height map_width m.is_alive i j % 2 ^ 8) r c
          ≡ m.neighbour_count r c
    same r c = elim (Bool-cases (r == i)) [
      | inl e ↦ elim (Bool-cases (c == j)) [
        | inl f ↦
            let row : i ≡ r = ground arith in
            let column : j ≡ c = ground arith in rw (e, f) (here ∙ ap₂ m.neighbour_count row column)
        | inr f ↦ rw (e, f) refl
      ]
      | inr e ↦ rw e refl
    ]

pub update_neighbour_count-again : (m : Map) → IsValid m → update_neighbour_count m ≡ m
unfolding update_neighbour_count for_cells
update_neighbour_count-again m h =
    for_range_inv (λ k t. t ≡ m) (λ i. for_range map_width 0 (λ j. count_cell i j)) map_height 0
      map_height (omega arith)
      (λ i t l u e.
        for_range_inv (λ k t. t ≡ m) (λ j. count_cell i j) map_width 0 map_width (omega arith)
          (λ j t l' v e'. ap (count_cell i j) e' ∙ count_cell-again m i j h u v) t e)
      m refl
