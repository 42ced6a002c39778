-- ===== src/Irgen/Tests.antt =====
-- The generated module at concrete inputs, with an interpreter of its instructions.
use llvm_mipt.Base.{
  ℕ, ◌-◌, ◌^◌, ◌<◌, ◌≡◌, refl, ap, Bool, true, false, not, ◌==◌, Option, none, some, List, [], ◌∷◌,
  get_elem?, map, str_eq, if◌then◌else◌,
}
use mathlib.Core.Option
use llvm_mipt.Sim.State.{sim_clear, sim_display, sim_set_pixel, update}
use llvm_mipt.Sim.Device.{next_seed}
use llvm_mipt.Life.{Map, of_bool, map_width, map_height, frames}
use llvm_mipt.Life.Rule.{generations}
use llvm_mipt.Life.Frames.{lit}
use llvm_mipt.Irgen.Record.{
  by_value, by_pointer, Inst, alloca, load, store, in_bounds_gep, binary, bit_not, icmp, zext, call,
  br, cond_br, ret_void,
}
use llvm_mipt.Irgen.Generator.{create_module, generated}
use llvm_mipt.Irgen.Semantics.{
  Address, variable, whole_map, cell, array, element, World, Callers, Config, at, running,
  number_of, address_of, set_address, meaning, compare_at, indexed, loaded, allocated, set_cell,
  blocks_of, emit_event, with_seed, Semantics, Reaches,
}
use llvm_mipt.Irgen.Program.{start_world, first_map, at_main, at_loop, main-frames, are_resolved}

abbrev store_at :
    Address
    → ℕ
    → List Inst
    → List (List Inst)
    → Address
    → (ℕ → ℕ)
    → (ℕ → Address)
    → (ℕ → ℕ)
    → Callers
    → World
    → Option Config
store_at (variable k) n is code par ns ads vs cs s =
    some (at is code par ns ads (update vs k n) cs s)
store_at (cell f r c) n is code par ns ads vs cs s =
    some (at is code par ns ads vs cs (set_cell f r c n s))
store_at whole_map n is code par ns ads vs cs s = none
store_at (array a) n is code par ns ads vs cs s = none
store_at (element a i) n is code par ns ads vs cs s = none

abbrev zeros : ℕ → ℕ
zeros k = 0

abbrev maps : ℕ → Address
maps k = whole_map

-- One instruction.
abbrev interpret : Config → Option Config
interpret (at [] code par ns ads vs cs s) = none
interpret (at (alloca k t ∷ is) code par ns ads vs cs s) =
    Option.map (λ a. at is code par ns (set_address ads k a) vs cs s) (allocated k t)
interpret (at (load k w x ∷ is) code par ns ads vs cs s) =
    Option.map (λ n. at is code par (update ns k n) ads vs cs s)
      (loaded generated w (address_of x par ads) vs s)
interpret (at (store v x ∷ is) code par ns ads vs cs s) =
    store_at (address_of x par ads) (number_of v ns) is code par ns ads vs cs s
interpret (at (in_bounds_gep k x idx ∷ is) code par ns ads vs cs s) =
    Option.map (λ a. at is code par ns (set_address ads k a) vs cs s)
      (indexed (address_of x par ads) (map (λ v. number_of v ns) idx))
interpret (at (binary k op x y ∷ is) code par ns ads vs cs s) =
    Option.map (λ n. at is code par (update ns k n) ads vs cs s)
      (meaning op x.width (number_of x ns) (number_of y ns))
interpret (at (bit_not k x ∷ is) code par ns ads vs cs s) =
    some (at is code par (update ns k (2 ^ x.width - 1 - number_of x ns)) ads vs cs s)
interpret (at (icmp k pred x y ∷ is) code par ns ads vs cs s) =
    Option.map (λ b. at is code par (update ns k (of_bool b)) ads vs cs s)
      (compare_at pred x.width (number_of x ns) (number_of y ns))
interpret (at (zext k x w ∷ is) code par ns ads vs cs s) =
    some (at is code par (update ns k (number_of x ns)) ads vs cs s)
interpret (at (br b ∷ is) code par ns ads vs cs s) =
    Option.map (λ js. at js code par ns ads vs cs s) (get_elem? code b)
interpret (at (cond_br x b c ∷ is) code par ns ads vs cs s) =
    Option.map (λ js. at js code par ns ads vs cs s)
      (get_elem? code (if number_of x ns == 1 then b else c))
interpret (at (ret_void ∷ is) code par ns ads vs [] s) = none
interpret (at (ret_void ∷ is) code par ns ads vs (c ∷ cs) s) = some (running c.0 c.1 cs s)
interpret (at (call k name [] ∷ is) code par ns ads vs cs s) =
    if str_eq name "sim_rand"
    then some
        (at is code par (update ns k (next_seed s.seed)) ads vs cs (with_seed (next_seed s.seed) s))
    else some (at is code par ns ads vs cs (emit_event sim_display s))
interpret (at (call k name (by_pointer x ∷ []) ∷ is) code par ns ads vs cs s) =
    Option.map
      (λ js.
        at js (blocks_of name generated) (address_of x par ads) zeros maps zeros
          ((
            is,
            record { code = code; parameter = par; numbers = ns; addresses = ads; variables = vs },
          )
            ∷ cs)
          s)
      (get_elem? (blocks_of name generated) 0)
interpret (at (call k name (by_value x ∷ []) ∷ is) code par ns ads vs cs s) =
    some (at is code par ns ads vs cs (emit_event (sim_clear (number_of x ns)) s))
interpret
      (at
        (call k name (by_value x ∷ by_value y ∷ by_value z ∷ by_value u ∷ []) ∷ is)
        code
        par
        ns
        ads
        vs
        cs
        s) =
    some (
      at is code par ns ads vs cs (
        emit_event
          (sim_set_pixel (number_of x ns) (number_of y ns) (number_of z ns) (number_of u ns)) s))
interpret (at (call k name args ∷ is) code par ns ads vs cs s) = none

is_one : (b : Bool) → (of_bool b == 1) ≡ b
is_one true = refl
is_one false = refl

abbrev interpreter : Semantics generated
interpreter = record {
  step = interpret;
  unset_number = zeros;
  nowhere = maps;
  alloca_step = λ a h. ap (Option.map _) h;
  load_step = λ n h. ap (Option.map _) h;
  store_variable_step = λ n w h a. rw (h, a, interpret) refl;
  store_cell_step = λ n w h a. rw (h, a, interpret) refl;
  gep_step = λ a h. ap (Option.map _) h;
  binary_step = λ n h. ap (Option.map _) h;
  not_step = λ n h. rw (h, interpret) refl;
  icmp_step = λ b h. ap (Option.map _) h;
  zext_step = λ n h. rw (h, interpret) refl;
  br_step = λ h. ap (Option.map _) h;
  cond_br_step = λ t h e. rw (h, is_one t, e, interpret) refl;
  call_step = λ a h e. rw (h, e, interpret) refl;
  ret_step = refl;
  clear_step = λ c h. rw (h, interpret) refl;
  display_step = refl;
  set_pixel_step = λ a b c d e f g h. rw (e, f, g, h, interpret) refl;
  rand_step = refl;
}

abbrev untouched : Map
untouched = record { is_alive = λ i j. 0; neighbour_count = λ i j. 0 }

main-frames_example :
    (create_module ≡ some generated)
    × (are_resolved generated.functions ≡ true)
    × (s : World) × Reaches interpreter
        (at_loop interpreter s)
        (at_main interpreter (start_world untouched 123456789))
    × (frames 3 (first_map untouched 123456789, []) ≡ some (s.map_of, s.events))
    × ((i j : ℕ)
        → i < map_height
        → j < map_width
        → lit s.events i j ≡ not (generations 2 (first_map untouched 123456789).is_alive i j == 0))
main-frames_example = main-frames interpreter 2 untouched 123456789
