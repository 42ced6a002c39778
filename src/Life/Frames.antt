-- ===== src/Life/Frames.antt =====
-- What the loop of `main` puts on the screen.
use llvm_mipt.Base.{
  ℕ, zero, suc, ◌+◌, ◌<◌, ◌≤◌, ◌≡◌, refl, sym, ap, ◌∙◌, arith, Bool, true, false, ◌&&◌, ◌||◌, not,
  ◌==◌, ltb, Option, none, some, List, [], ◌∷◌, get_elem?, get_elem?-total, Bool-cases, inl, inr,
}
use llvm_mipt.Base.Loops.{for_range, for_range_inv}
use llvm_mipt.Sim.State.{Event, put_char, sim_clear, sim_display, sim_set_pixel}
use llvm_mipt.Life.{
  Map, map_width, map_height, for_cells, color_scheme, pixel_shape, background_color, set_pixel,
  draw_cell, draw_map, drawn, update_map, frame, then_frame, frames, init_map, main,
}
use llvm_mipt.Life.Rule.{generation, generations, SameScreen, generation-SameScreen, neighbours-le}
use llvm_mipt.Life.Round.{IsValid, update_map-SameScreen, update_map-IsValid, init_map-IsValid}

-- The pixels that were set since the screen was last cleared.
pub lit : List Event → ℕ → ℕ → Bool
lit [] i j = false
lit (sim_clear c ∷ es) i j = false
lit (sim_set_pixel x y c s ∷ es) i j = (y == i) && (x == j) || lit es i j
lit (sim_display ∷ es) i j = lit es i j
lit (put_char c ∷ es) i j = lit es i j

-- The loops have been at the cell `r, c` before they come to `i, j`.
abbrev before : ℕ → ℕ → ℕ → ℕ → Bool
before i j r c = ltb r i || (r == i) && ltb c j

abbrev live : Map → ℕ → ℕ → Bool
live m r c = not (m.is_alive r c == 0)

-- The drawing has reached `i, j`.
abbrev Drawn : Map → ℕ → ℕ → Option (List Event) → Type 0
Drawn m i j o =
    (es : List Event) × (o ≡ some es)
    × ((r c : ℕ) → c < map_width → lit es r c ≡ (before i j r c && live m r c))

pub color_total : (n : ℕ) → n ≤ 8 → (color : ℕ) × (get_elem? color_scheme n ≡ some color)
color_total n h = get_elem?-total color_scheme n (omega arith)

set_pixel-Drawn :
    (m : Map) (i j : ℕ) (es : List Event) (o : Option ℕ) (color : ℕ)
    → o ≡ some color
    → ((r c : ℕ) → c < map_width → lit es r c ≡ (before i j r c && live m r c))
    → live m i j ≡ true
    → Drawn m i (j + 1) (set_pixel j i o es)
unfolding lit
set_pixel-Drawn m i j es o color e h l = (
  sim_set_pixel j i color pixel_shape ∷ es,
  ap (λ q. set_pixel j i q es) e,
  λ r c w. ground (arith, h r c w, l),
)

draw_cell-Drawn :
    (m : Map) (i j : ℕ) (o : Option (List Event))
    → IsValid m
    → i < map_height
    → j < map_width
    → Drawn m i j o
    → Drawn m i (j + 1) (draw_cell m i j o)
draw_cell-Drawn m i j none h u v (es, e, d) = cc
draw_cell-Drawn m i j (some fs) h u v (es, e, d) = elim (Bool-cases (m.is_alive i j == 0)) [
  | inl dead ↦ (fs, rw dead refl, λ r c w. at_dead dead r c w)
  | inr alive ↦
      let (color, k) =
        color_total (m.neighbour_count i j)
          (omega (arith, h.counted i j u v, neighbours-le m.is_alive i j h.binary u v)) in
      rw alive (set_pixel-Drawn m i j fs _ color k now (rw alive refl))
]
  where
    same : es ≡ fs
    same = cc

    now : (r c : ℕ) → c < map_width → lit fs r c ≡ (before i j r c && live m r c)
    now r c w = ap (λ l. lit l r c) (sym same) ∙ d r c w

    at_dead :
        (m.is_alive i j == 0) ≡ true
        → (r c : ℕ) → c < map_width
        → lit fs r c ≡ (before i (j + 1) r c && live m r c)
    at_dead dead r c w = ground (arith, now r c w, dead)

-- A displayed screen shows the live cells of the map.
pub draw_map-lit :
    (m : Map) (es : List Event)
    → IsValid m
    → ((i j : ℕ) → lit es i j ≡ false)
    → (fs : List Event) × (draw_map m es ≡ some fs)
      × ((i j : ℕ) → i < map_height → j < map_width → lit fs i j ≡ live m i j)
unfolding draw_map for_cells
draw_map-lit m es h blank =
    let (fs, e, d) =
      for_range_inv (λ k o. Drawn m k 0 o) (λ i. for_range map_width 0 (λ j. draw_cell m i j))
        map_height 0 map_height (omega arith) (λ k o l u d. row k o u d) (some es) start in
    (fs, e, λ i j u v. ground (arith, d i j v))
  where
    start : Drawn m 0 0 (some es)
    start = (es, refl, λ r c w. ground (arith, blank r c))

    next_row : (i : ℕ) (o : Option (List Event)) → Drawn m i map_width o → Drawn m (i + 1) 0 o
    next_row i o (fs, e, d) = (fs, e, λ r c w. ground (arith, d r c w))

    row :
        (i : ℕ) (o : Option (List Event))
        → i < map_height
        → Drawn m i 0 o
        → Drawn m (i + 1) 0 (for_range map_width 0 (λ j. draw_cell m i j) o)
    row i o u d = next_row i (for_range map_width 0 (λ j. draw_cell m i j) o) (
        for_range_inv (λ k o. Drawn m i k o) (λ j. draw_cell m i j) map_width 0 map_width
          (omega arith) (λ k o l v d. draw_cell-Drawn m i k o h u v d) o d)

-- What one round leaves, and what it has displayed.
pub record Shows (m : Map) (s : Map × List Event) : Type 0 where
  pub valid : IsValid (s.0)
  pub next : SameScreen (s.0).is_alive (generation m.is_alive)
  pub screen : (i j : ℕ) → i < map_height → j < map_width → lit s.1 i j ≡ live m i j

frame-Shows :
    (m : Map) (es : List Event)
    → IsValid m
    → (s : Map × List Event) × (frame (m, es) ≡ some s) × Shows m s
unfolding frame lit
frame-Shows m es h =
    let (fs, e, d) = draw_map-lit m (sim_clear background_color ∷ es) h (λ i j. refl) in
    (
      (update_map m, sim_display ∷ fs),
      ap (drawn m) e,
      record { valid = update_map-IsValid m h; next = update_map-SameScreen m h; screen = d },
    )

-- After `n` rounds, the map shows the generation `n`.
frames-Shows :
    (n : ℕ) (m : Map) (es : List Event)
    → IsValid m
    → (s : Map × List Event) × (frames n (m, es) ≡ some s)
      × IsValid s.0
      × SameScreen (s.0).is_alive (generations n m.is_alive)
unfolding frames generations
frames-Shows zero m es h = ((m, es), refl, h, λ i j u v. refl)
frames-Shows (suc n) m es h =
    let (s, e, k, d) = frames-Shows n m es h in
    let (t, f, w) = frame-Shows s.0 s.1 k in
    (
      t,
      ap then_frame e ∙ f,
      w.valid,
      λ i j u v.
          w.next i j u v
          ∙ generation-SameScreen (s.0).is_alive (generations n m.is_alive) d i j u v,
    )

-- From a valid map, the round `n + 1` displays the generation `n` after it.
pub frames-lit :
    (n : ℕ) (m : Map)
    → IsValid m
    → (s : Map × List Event) × (frames (suc n) (m, []) ≡ some s)
      × ((i j : ℕ)
          → i < map_height
          → j < map_width
          → lit s.1 i j ≡ not (generations n m.is_alive i j == 0))
unfolding frames
frames-lit n m h =
    let (s, e, k, d) = frames-Shows n m [] h in
    let (t, f, w) = frame-Shows s.0 s.1 k in
    (t, ap then_frame e ∙ f, λ i j u v. w.screen i j u v ∙ ap (λ a. not (a == 0)) (d i j u v))

-- From any seed and whatever the stack held, the program never reads outside its color scheme, and
-- the screen that it displays in its round `n + 1` shows exactly the live cells of the generation
-- `n` on the torus after the first map.
pub main-generations :
    (n : ℕ) (m : Map) (seed : ℕ)
    → (s : Map × List Event) × (main (suc n) m seed ≡ some s)
      × ((i j : ℕ)
          → i < map_height
          → j < map_width
          → lit s.1 i j ≡ not (generations n (init_map (m, seed)).0.is_alive i j == 0))
unfolding main
main-generations n m seed = frames-lit n (init_map (m, seed)).0 (init_map-IsValid (m, seed))
