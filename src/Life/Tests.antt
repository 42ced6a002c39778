-- ===== src/Life/Tests.antt =====
-- The game of life from the seed of life_game/sim/sim.cpp.
use llvm_mipt.Base.{ℕ, ◌<◌, ◌≡◌, not, ◌==◌, some, List}
use llvm_mipt.Sim.State.{Event}
use llvm_mipt.Life.{Map, map_height, map_width, init_map, main}
use llvm_mipt.Life.Rule.{generations}
use llvm_mipt.Life.Frames.{lit, main-generations}

abbrev untouched : Map
untouched = record { is_alive = λ i j. 0; neighbour_count = λ i j. 0 }

main-generations_example :
    (s : Map × List Event) × (main 3 untouched 123456789 ≡ some s)
    × ((i j : ℕ)
        → i < map_height
        → j < map_width
        → lit s.1 i j ≡ not (generations 2 (init_map (untouched, 123456789)).0.is_alive i j == 0))
main-generations_example = main-generations 2 untouched 123456789
