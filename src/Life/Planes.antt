-- ===== src/Life/Planes.antt =====
-- What the loops over the cells of a map leave in it.
use llvm_mipt.Base.{
  ℕ, zero, suc, ◌+◌, ◌<◌, ◌≤◌, ◌≡◌, ◌≢◌, refl, ◌∙◌, ◌⊎◌, inl, inr, arith, ◌==◌, Bool-cases, ap,
}
use llvm_mipt.Base.Loops.{for_range, for_range_on}
use llvm_mipt.Life.{Plane, put, for_cells}

module _ (f : ℕ → ℕ → ℕ → ℕ) where
  -- Each cell gets a value by its place and its old value.
  abbrev pub fill_cell : ℕ → ℕ → Plane → Plane
  fill_cell i j p = put p i j (f i j (p i j))

  row_outside :
      (n k i r c : ℕ) (p : Plane) → (r ≢ i) ⊎ (c < k) → for_range n k (fill_cell i) p r c ≡ p r c
  unfolding for_range
  row_outside zero k i r c p h = refl
  row_outside (suc n) k i r c p (inl h) =
      row_outside n (k + 1) i r c (fill_cell i k p) (inl h) ∙ ground (arith, h)
  row_outside (suc n) k i r c p (inr h) =
      row_outside n (k + 1) i r c (fill_cell i k p) (inr (omega arith)) ∙ ground arith

  row_inside :
      (n k i c : ℕ) (p : Plane)
      → k ≤ c
      → c < k + n
      → for_range n k (fill_cell i) p i c ≡ f i c (p i c)
  unfolding for_range
  row_inside zero k i c p l u = absurd (omega arith)
  row_inside (suc n) k i c p l u = elim (Bool-cases (c == k)) [
    | inl e ↦ row_outside n (k + 1) i i c (fill_cell i k p) (inr (ground arith)) ∙ ground arith
    | inr e ↦ row_inside n (k + 1) i c (fill_cell i k p) (ground arith) (omega arith) ∙ ground arith
  ]

  -- One round of the outer loop.
  abbrev pub fill_row : ℕ → ℕ → Plane → Plane
  fill_row w i p = for_range w 0 (fill_cell i) p

  rows_outside : (n k w r c : ℕ) (p : Plane) → r < k → for_range n k (fill_row w) p r c ≡ p r c
  unfolding for_range
  rows_outside zero k w r c p h = refl
  rows_outside (suc n) k w r c p h =
      rows_outside n (k + 1) w r c (fill_row w k p) (omega arith)
      ∙ row_outside w 0 k r c p (inl (ground arith))

  rows_inside :
      (n k w r c : ℕ) (p : Plane)
      → k ≤ r
      → r < k + n
      → c < w
      → for_range n k (fill_row w) p r c ≡ f r c (p r c)
  unfolding for_range
  rows_inside zero k w r c p l u v = absurd (omega arith)
  rows_inside (suc n) k w r c p l u v = elim (Bool-cases (r == k)) [
    | inl e ↦
        rows_outside n (k + 1) w r c (fill_row w k p) (ground arith)
        ∙ (let e' : r ≡ k = ground arith in
            rw e' (row_inside w 0 k c p (omega arith) (omega arith)))
    | inr e ↦
        rows_inside n (k + 1) w r c (fill_row w k p) (ground arith) (omega arith) v
        ∙ ap (f r c) (row_outside w 0 k r c p (inl (ground arith)))
  ]

  -- The loops give each cell in the range its value, and a cell is read before it is written.
  pub for_cells-fill_cell :
      (h w r c : ℕ) (p : Plane) → r < h → c < w → for_cells h w fill_cell p r c ≡ f r c (p r c)
  unfolding for_cells
  for_cells-fill_cell h w r c p u v = rows_inside h 0 w r c p (omega arith) (omega arith) v

-- Loops that write one part of a state are loops on that part.
pub for_cells_on {ℓ κ} :
    {S : Type ℓ} {T : Type κ} (whole : S → T) (body : ℕ → ℕ → S → S) (body' : ℕ → ℕ → T → T)
    → ((i j : ℕ) (s : S) → body' i j (whole s) ≡ whole (body i j s))
    → (h w : ℕ) (s : S) → for_cells h w body' (whole s) ≡ whole (for_cells h w body s)
unfolding for_cells
for_cells_on whole body body' e h w s =
    for_range_on whole (λ i. for_range w 0 (λ j. body i j)) (λ i. for_range w 0 (λ j. body' i j))
      (λ i s. for_range_on whole (λ j. body i j) (λ j. body' i j) (e i) w 0 s) h 0 s
