-- ===== src/Irgen/Steps.antt =====
-- Facts on the values that the generated instructions compute.
use llvm_mipt.Base.{
  ℕ, ◌+◌, ◌-◌, ◌%◌, ◌^◌, ◌<◌, ◌≤◌, ◌≡◌, refl, ap, arith, Bool, true, false, ◌&&◌, ◌||◌, not, some,
  [], ◌∷◌, ◌==◌, lt→ltb, bit_and, bit_or,
}
use llvm_mipt.Life.{Map, for_cells, map_width, map_height, of_bool, lives_on}
use llvm_mipt.Life.Planes.{for_cells_on}
use llvm_mipt.Irgen.Semantics.{World, whole_map, cell, indexed}

-- A turn that works on the map.
abbrev pub on_map_of : (ℕ → ℕ → Map → Map) → ℕ → ℕ → World → World
on_map_of f i j s = record s { map_of = f i j s.map_of }

pub on_map_of-for_cells :
    (f : ℕ → ℕ → Map → Map) (s : World)
    → for_cells map_height map_width (on_map_of f) s
      ≡ record s { map_of = for_cells map_height map_width f s.map_of }
on_map_of-for_cells f s =
    for_cells_on (λ m. record s { map_of = m }) f (on_map_of f) (λ i j m. refl) map_height map_width
      s.map_of

pub index_cell :
    (f r c r' c' : ℕ)
    → f < 2
    → r' ≡ r
    → c' ≡ c
    → r < map_height
    → c < map_width
    → indexed whole_map (0 ∷ f ∷ r' ∷ c' ∷ []) ≡ some (cell f r c)
index_cell f r c r' c' u d e v w =
    rw (d, e, lt→ltb f 2 u, lt→ltb r map_height v, lt→ltb c map_width w) refl

pub next_index : (w j j' : ℕ) → j' ≡ j → j < w → w ≤ 200 → some ((j' + 1) % 2 ^ 32) ≡ some (j + 1)
next_index w j j' e l h = ap some (omega arith)

pub and_bits : (a b : Bool) → bit_and (of_bool a) (of_bool b) ≡ of_bool (a && b)
and_bits true true = refl
and_bits true false = refl
and_bits false true = refl
and_bits false false = refl

pub or_bits : (a b : Bool) → bit_or (of_bool a) (of_bool b) ≡ of_bool (a || b)
or_bits true true = refl
or_bits true false = refl
or_bits false true = refl
or_bits false false = refl

pub not_bit : (a : Bool) → 2 ^ 1 - 1 - of_bool a ≡ of_bool (not a)
not_bit true = refl
not_bit false = refl

-- The three conditions are the two of life_game/src/life.c.
pub three_conditions :
    (alive n : ℕ)
    → ((not (alive == 0) && (n == 2)) || (not (alive == 0) && (n == 3)))
        || (not (not (alive == 0)) && (n == 3))
      ≡ lives_on alive n
unfolding lives_on
three_conditions alive n = elim (alive == 0) [ true ↦ ground arith | false ↦ ground arith ]

-- The sum of bytes, in pairs and wrapping.
pub sum_bytes :
    (a b c d e f g h : ℕ)
    → (((a + b) % 2 ^ 8 + (c + d) % 2 ^ 8) % 2 ^ 8 + ((e + f) % 2 ^ 8 + (g + h) % 2 ^ 8) % 2 ^ 8)
        % 2 ^ 8
      ≡ (a + b + c + d + e + f + g + h) % 2 ^ 8
sum_bytes a b c d e f g h = omega arith
