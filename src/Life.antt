-- ===== src/Life.antt =====
-- life_game/src/life.c, the game of life on a torus, with the constants of life_game/sim/sim.h. A
-- plane of the map is a function of the row and the column, and its cells are bytes.
pub mod Planes
pub mod Rule
pub mod Filled
pub mod Round
pub mod Frames
mod Tests
use llvm_mipt.Base.{
  ℕ, zero, suc, ◌+◌, ◌-◌, ◌%◌, ◌^◌, Bool, true, false, ◌&&◌, ◌||◌, not, Option, none, some, List,
  [], ◌∷◌, ◌==◌, bit_or, get_elem?, if◌then◌else◌,
}
use llvm_mipt.Base.Word.{shl32}
use llvm_mipt.Base.Loops.{for_range}
use llvm_mipt.Sim.State.{Event, sim_clear, sim_display, sim_set_pixel}
use llvm_mipt.Sim.Device.{next_seed}

abbrev pub map_width : ℕ
map_width = 200

abbrev pub map_height : ℕ
map_height = 100

-- `SIM_RGB`: the byte of the opacity is 255.
abbrev pub sim_rgb : ℕ → ℕ → ℕ → ℕ
sim_rgb r g b = bit_or (bit_or (bit_or (shl32 r 24) (shl32 g 16)) (shl32 b 8)) 255

abbrev pub background_color : ℕ
background_color = sim_rgb 128 128 128

abbrev pub pixel_shape : ℕ
pixel_shape = 32

abbrev pub initial_density_ratio : ℕ
initial_density_ratio = 5

abbrev pub Plane : Type 0
Plane = ℕ → ℕ → ℕ

-- `map_t`
pub record Map : Type 0 where
  pub is_alive : Plane
  pub neighbour_count : Plane

abbrev pub put : Plane → ℕ → ℕ → ℕ → Plane
put p i j v r c = if (r == i) && (c == j) then v else p r c

abbrev pub color_scheme : List ℕ
color_scheme =
    sim_rgb 240 223 36
    ∷ sim_rgb 98 240 36
    ∷ sim_rgb 36 240 214
    ∷ sim_rgb 36 194 240
    ∷ sim_rgb 36 50 240
    ∷ sim_rgb 194 236 240
    ∷ sim_rgb 240 36 28
    ∷ sim_rgb 240 60 36
    ∷ sim_rgb 240 122 36
    ∷ []

-- The loops over the rows and, in each, over the columns.
unfoldable pub for_cells {ℓ} : {S : Type ℓ} → ℕ → ℕ → (ℕ → ℕ → S → S) → S → S
for_cells h w body s = for_range h 0 (λ i. for_range w 0 (λ j. body i j)) s

-- The value of an `int` that is a truth value.
abbrev pub of_bool : Bool → ℕ
of_bool true = 1
of_bool false = 0

-- The sum that `update_neighbour_count` stores, of a cell of a map of this height and width.
unfoldable pub neighbours : ℕ → ℕ → Plane → ℕ → ℕ → ℕ
neighbours h w p i j =
    let left = (j + w - 1) % w in
    let right = (j + 1) % w in
    let top = (i + h - 1) % h in
    let bottom = (i + 1) % h in
    p top left
    + p top j
    + p top right
    + p i left
    + p i right
    + p bottom left
    + p bottom j
    + p bottom right

abbrev pub count_cell : ℕ → ℕ → Map → Map
count_cell i j m = record m {
  neighbour_count =
      put m.neighbour_count i j (neighbours map_height map_width m.is_alive i j % 2 ^ 8);
}

unfoldable pub update_neighbour_count : Map → Map
update_neighbour_count m = for_cells map_height map_width count_cell m

-- The condition of `update_map`, of the cell and its count.
unfoldable pub lives_on : ℕ → ℕ → Bool
lives_on alive count = not (alive == 0) && (count == 2) || (count == 3)

abbrev pub update_cell : ℕ → ℕ → Map → Map
update_cell i j m = record m {
  is_alive = put m.is_alive i j (of_bool (lives_on (m.is_alive i j) (m.neighbour_count i j)));
}

unfoldable pub update_map : Map → Map
update_map m = update_neighbour_count (for_cells map_height map_width update_cell m)

-- A cell of `init_map`, with the seed of `sim_rand`.
abbrev pub init_cell : ℕ → ℕ → Map × ℕ → Map × ℕ
init_cell i j s =
    let seed = next_seed s.1 in
    (
      record (s.0) {
        is_alive = put (s.0).is_alive i j (of_bool (seed % initial_density_ratio == 0));
      },
      seed,
    )

unfoldable pub init_map : Map × ℕ → Map × ℕ
init_map s = let t = for_cells map_height map_width init_cell s in (update_neighbour_count t.0, t.1)

-- The events so far, the newest first; `none` once an index was outside `color_scheme`.
abbrev pub set_pixel : ℕ → ℕ → Option ℕ → List Event → Option (List Event)
set_pixel x y none es = none
set_pixel x y (some color) es = some (sim_set_pixel x y color pixel_shape ∷ es)

abbrev pub draw_cell : Map → ℕ → ℕ → Option (List Event) → Option (List Event)
draw_cell m i j none = none
draw_cell m i j (some es) =
    if m.is_alive i j == 0
    then some es
    else set_pixel j i (get_elem? color_scheme (m.neighbour_count i j)) es

unfoldable pub draw_map : Map → List Event → Option (List Event)
draw_map m es = for_cells map_height map_width (draw_cell m) (some es)

abbrev pub drawn : Map → Option (List Event) → Option (Map × List Event)
drawn m none = none
drawn m (some es) = some (update_map m, sim_display ∷ es)

-- One round of the loop in `main`, where `ENABLE_STATIC_MODE` is 0.
unfoldable pub frame : Map × List Event → Option (Map × List Event)
frame s = drawn s.0 (draw_map s.0 (sim_clear background_color ∷ s.1))

abbrev pub then_frame : Option (Map × List Event) → Option (Map × List Event)
then_frame none = none
then_frame (some s) = frame s

-- So many rounds of the loop, which never ends.
unfoldable pub frames : ℕ → Map × List Event → Option (Map × List Event)
frames zero s = some s
frames (suc n) s = then_frame (frames n s)

-- `main`: the map as the stack left it, and the seed.
unfoldable pub main : ℕ → Map → ℕ → Option (Map × List Event)
main n m seed = frames n ((init_map (m, seed)).0, [])
