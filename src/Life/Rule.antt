-- ===== src/Life/Rule.antt =====
-- The game of life on a torus, as its rule is usually told: the sum over the three rows and three
-- columns around a cell, the cell among them, decides on it.
use llvm_mipt.Base.{ℕ, zero, suc, ◌+◌, ◌-◌, ◌%◌, ◌<◌, ◌≤◌, ◌≡◌, arith, ◌==◌, if◌then◌else◌}
use llvm_mipt.Life.{Plane, map_width, map_height, neighbours, lives_on, of_bool}

-- The sum over the three places around `k` on a circle of `n`.
abbrev pub around : ℕ → ℕ → (ℕ → ℕ) → ℕ
around n k f = f ((k + (n - 1)) % n) + f (k % n) + f ((k + 1) % n)

pub block : Plane → ℕ → ℕ → ℕ
block p i j = around map_height i (λ r. around map_width j (p r))

-- Three live cells make the cell live, four keep it as it is, and any other number kills it.
unfoldable pub generation : Plane → Plane
unfolding block
generation p i j = if block p i j == 3 then 1 else if block p i j == 4 then p i j else 0

unfoldable pub generations : ℕ → Plane → Plane
generations zero p = p
generations (suc n) p = generation (generations n p)

-- The cells on the screen are 0 or 1.
abbrev pub IsBinary : Plane → Type 0
IsBinary p = (i j : ℕ) → i < map_height → j < map_width → p i j ≤ 1

-- Two planes show the same screen.
abbrev pub SameScreen : Plane → Plane → Type 0
SameScreen p q = (i j : ℕ) → i < map_height → j < map_width → p i j ≡ q i j

block-neighbours :
    (p : Plane) (i j : ℕ)
    → i < map_height
    → j < map_width
    → block p i j ≡ neighbours map_height map_width p i j + p i j
unfolding block neighbours
block-neighbours p i j u v =
    let top : (i + 100 - 1) % 100 ≡ (i + 99) % 100 = omega arith in
    let left : (j + 200 - 1) % 200 ≡ (j + 199) % 200 = omega arith in
    let row : i % 100 ≡ i = omega arith in
    let column : j % 200 ≡ j = omega arith in rw (top, left, row, column) (omega arith)

pub neighbours-le :
    (p : Plane) (i j : ℕ)
    → IsBinary p
    → i < map_height
    → j < map_width
    → neighbours map_height map_width p i j ≤ 8
unfolding neighbours
neighbours-le p i j b u v =
    let left = (j + 200 - 1) % 200 in
    let right = (j + 1) % 200 in
    let top = (i + 100 - 1) % 100 in
    let bottom = (i + 1) % 100 in
    omega (
      arith,
      b top left (omega arith) (omega arith),
      b top j (omega arith) v,
      b top right (omega arith) (omega arith),
      b i left u (omega arith),
      b i right u (omega arith),
      b bottom left (omega arith) (omega arith),
      b bottom j (omega arith) v,
      b bottom right (omega arith) (omega arith),
    )

neighbours-SameScreen :
    (p q : Plane) (i j : ℕ)
    → SameScreen p q
    → i < map_height
    → j < map_width
    → neighbours map_height map_width p i j ≡ neighbours map_height map_width q i j
unfolding neighbours
neighbours-SameScreen p q i j e u v =
    let left = (j + 200 - 1) % 200 in
    let right = (j + 1) % 200 in
    let top = (i + 100 - 1) % 100 in
    let bottom = (i + 1) % 100 in
    omega (
      arith,
      e top left (omega arith) (omega arith),
      e top j (omega arith) v,
      e top right (omega arith) (omega arith),
      e i left u (omega arith),
      e i right u (omega arith),
      e bottom left (omega arith) (omega arith),
      e bottom j (omega arith) v,
      e bottom right (omega arith) (omega arith),
    )

-- The rule of the program, by the number of neighbours.
pub lives_on-generation :
    (p : Plane) (i j : ℕ)
    → IsBinary p
    → i < map_height
    → j < map_width
    → of_bool (lives_on (p i j) (neighbours map_height map_width p i j)) ≡ generation p i j
unfolding lives_on generation
lives_on-generation p i j b u v = ground (arith, block-neighbours p i j u v, b i j u v)

pub generation-SameScreen :
    (p q : Plane) → SameScreen p q → SameScreen (generation p) (generation q)
unfolding generation
generation-SameScreen p q e i j u v = ground (
  arith,
  block-neighbours p i j u v,
  block-neighbours q i j u v,
  neighbours-SameScreen p q i j e u v,
  e i j u v,
)

pub generation-IsBinary : (p : Plane) → IsBinary p → IsBinary (generation p)
unfolding generation
generation-IsBinary p b i j u v = ground (arith, b i j u v)
