-- ===== src/Life/Filled.antt =====
-- Loops that put a truth value into each cell of a plane, whatever else they do to their state.
use llvm_mipt.Base.{
  ℕ, ◌+◌, ◌<◌, ◌≤◌, ◌≡◌, ◌≢◌, arith, Bool, true, false, Bool-cases, ◌==◌, inl, inr,
}
use llvm_mipt.Base.Loops.{for_range, for_range_inv}
use llvm_mipt.Life.{Plane, put, map_width, map_height, of_bool, for_cells}
use llvm_mipt.Life.Rule.{IsBinary}

put-le :
    (p : Plane) (i j r c : ℕ) (b : Bool)
    → ((r ≡ i → c ≢ j → p r c ≤ 1) × (r ≢ i → p r c ≤ 1))
    → put p i j (of_bool b) r c ≤ 1
put-le p i j r c b h = elim (Bool-cases (r == i)) [
  | inl e ↦ elim (Bool-cases (c == j)) [
    | inl f ↦ rw (e, f) (of_bool-le b)
    | inr f ↦ rw (e, f) (h.0 (ground arith) (ground arith))
  ]
  | inr e ↦ rw e (h.1 (ground arith))
]
  where
    of_bool-le : (b : Bool) → of_bool b ≤ 1
    of_bool-le true = omega arith
    of_bool-le false = omega arith

module _ {ℓ} {S : Type ℓ} (plane_of : S → Plane) (chosen : ℕ → ℕ → S → Bool) (turn : ℕ → ℕ → S → S)
    (writes : (i j : ℕ) (s : S)
      → plane_of (turn i j s) ≡ put (plane_of s) i j (of_bool (chosen i j s))) where
  -- The cells before the place `i, j` of the loops are 0 or 1.
  abbrev BinaryBefore : ℕ → ℕ → S → Type 0
  BinaryBefore i j s =
      (r c : ℕ)
      → c < map_width
      → (r < i → plane_of s r c ≤ 1) × (r ≡ i → c < j → plane_of s r c ≤ 1)

  turn-BinaryBefore : (i j : ℕ) (s : S) → BinaryBefore i j s → BinaryBefore i (j + 1) (turn i j s)
  turn-BinaryBefore i j s h r c v = rw (writes i j s) (
    λ l. put-le (plane_of s) i j r c _ (λ e n. (h r c v).0 l, λ e. (h r c v).0 l),
    λ e l.
        put-le (plane_of s) i j r c _ (λ d n. (h r c v).1 e (omega (arith, n)), λ n. absurd (n e)),
  )

  row-BinaryBefore :
      (i : ℕ) (s : S)
      → BinaryBefore i 0 s
      → BinaryBefore (i + 1) 0 (for_range map_width 0 (turn i) s)
  row-BinaryBefore i s h r c v =
      let row =
        for_range_inv (λ k t. BinaryBefore i k t) (turn i) map_width 0 map_width (omega arith)
          (λ k t l w p. turn-BinaryBefore i k t p) s h r c v in
      (
        λ l. elim (Bool-cases (r == i)) [
          | inl e ↦ row.1 (ground arith) v
          | inr e ↦ row.0 (ground arith)
        ],
        λ e l. absurd (omega arith),
      )

  pub filled-IsBinary : (s : S) → IsBinary (plane_of (for_cells map_height map_width turn s))
  unfolding for_cells
  filled-IsBinary s i j u v =
      (for_range_inv (λ k t. BinaryBefore k 0 t) (λ i. for_range map_width 0 (turn i)) map_height 0
          map_height (omega arith) (λ k t l w p. row-BinaryBefore k t p) s
          (λ r c w. (λ l. absurd (omega arith), λ e l. absurd (omega arith))) i j v).0
        u
