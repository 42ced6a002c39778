-- ===== src/Base/Loops.antt =====
-- The counting `for` loops of the programs, and the rules to reason on them.
use Prim.Native.Nat.{ℕ, zero, suc, ◌+◌, ◌<◌, ◌≤◌}
use mathlib.Core.Path.{◌≡◌, refl, ◌∙◌, ap}
use native.Mathlib.Omega.{arith}

-- `for (int k = low; k < low + todo; ++k)`, whose body is `turn`.
unfoldable pub for_range {ℓ} : {State : Type ℓ} → ℕ → ℕ → (ℕ → State → State) → State → State
for_range zero low turn = λ st. st
for_range (suc todo) low turn = λ st. for_range todo (low + 1) turn (turn low st)

-- What holds before the loop, and stays so in every turn from `low` to `high`, holds after it.
pub for_range_inv {ℓ κ} :
    {State : Type ℓ} (Inv : ℕ → State → Type κ) (turn : ℕ → State → State) (todo low high : ℕ)
    → low + todo ≡ high
    → ((k : ℕ) (st : State) → low ≤ k → k < high → Inv k st → Inv (k + 1) (turn k st))
    → (st : State) → Inv low st
    → Inv high (for_range todo low turn st)
unfolding for_range
for_range_inv Inv turn zero low high ends stays st now =
    let there : low ≡ high = omega arith in rw (← there) now
for_range_inv Inv turn (suc todo) low high ends stays st now =
    for_range_inv Inv turn todo (low + 1) high (omega arith)
      (λ k u from below. stays k u (omega arith) below) (turn low st)
      (stays low st (omega arith) (omega arith) now)

-- A relation that each turn of two loops keeps.
pub for_range_rel {ℓ κ μ} :
    {State : Type ℓ} {State' : Type κ} (Rel : State → State' → Type μ) (turn : ℕ → State → State)
    (turn' : ℕ → State' → State') (todo low high : ℕ)
    → low + todo ≡ high
    → ((k : ℕ) (st : State) (st' : State')
        → low ≤ k
        → k < high
        → Rel st st'
        → Rel (turn k st) (turn' k st'))
    → (st : State) (st' : State') → Rel st st'
    → Rel (for_range todo low turn st) (for_range todo low turn' st')
unfolding for_range
for_range_rel Rel turn turn' zero low high ends keeps st st' now = now
for_range_rel Rel turn turn' (suc todo) low high ends keeps st st' now =
    for_range_rel Rel turn turn' todo (low + 1) high (omega arith)
      (λ k u u' from below. keeps k u u' (omega arith) below) (turn low st) (turn' low st')
      (keeps low st st' (omega arith) (omega arith) now)

-- A loop on a part of a state is the loop on the state.
pub for_range_on {ℓ κ} :
    {Part : Type ℓ} {State : Type κ} (whole : Part → State) (turn : ℕ → Part → Part)
    (turn' : ℕ → State → State)
    → ((k : ℕ) (p : Part) → turn' k (whole p) ≡ whole (turn k p))
    → (todo low : ℕ) (p : Part)
    → for_range todo low turn' (whole p) ≡ whole (for_range todo low turn p)
unfolding for_range
for_range_on whole turn turn' same zero low p = refl
for_range_on whole turn turn' same (suc todo) low p =
    ap (for_range todo (low + 1) turn') (same low p)
    ∙ for_range_on whole turn turn' same todo (low + 1) (turn low p)
