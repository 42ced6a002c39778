-- ===== src/Irgen/Semantics/Values.antt =====
-- The memory of a generated program, and the values that LLVM's instructions compute.
use llvm_mipt.Base.{
  ℕ, zero, suc, ◌+◌, ◌-◌, ◌%◌, ◌^◌, Bool, not, ◌&&◌, Option, none, some, List, [], ◌∷◌, ◌==◌, ltb,
  bit_and, bit_or, get_elem?, String, str_eq, if◌then◌else◌,
}
use llvm_mipt.Base.Word.{ℤ, pos, negsuc, int32, slt}
use llvm_mipt.Sim.State.{Event}
use llvm_mipt.Life.{Map, Plane, put, map_width, map_height}
use llvm_mipt.Irgen.Record.{
  Operand, const, result, Number, Pointer, argument, address, global, Ty, int_ty, map_struct_ty,
  BinaryOp, add_bin, urem_bin, srem_bin, and_bin, or_bin, Predicate, slt_pred, eq_pred, ne_pred,
  Inst, find_fn, Module,
}

-- What a pointer points at: a variable, by the number of its `alloca`; the map; a cell of the plane
-- with this number; an array; an element of it.
pub data Address : Type 0 where
  variable : ℕ → Address
  whole_map : Address
  cell : ℕ → ℕ → ℕ → Address
  array : String → Address
  element : String → ℕ → Address

-- A call of a function: its code, its argument, the results of its instructions and its variables.
pub record Activation : Type 0 where
  pub code : List (List Inst)
  pub parameter : Address
  pub numbers : ℕ → ℕ
  pub addresses : ℕ → Address
  pub variables : ℕ → ℕ

pub record World : Type 0 where
  pub map_of : Map
  pub events : List Event
  pub seed : ℕ

abbrev pub Callers : Type 0
Callers = List (List Inst × Activation)

-- The instructions that are left of the block, the call that runs, by the parts of its `Activation`,
-- and the calls that wait for it with the instructions that are left of theirs.
pub data Config : Type 0 where
  at :
      List Inst
      → List (List Inst)
      → Address
      → (ℕ → ℕ)
      → (ℕ → Address)
      → (ℕ → ℕ)
      → Callers
      → World
      → Config

abbrev pub running : List Inst → Activation → Callers → World → Config
running is act cs s = at is act.code act.parameter act.numbers act.addresses act.variables cs s

abbrev pub value_of : Operand → (ℕ → ℕ) → ℕ
value_of (const n) ns = n
value_of (result k) ns = ns k

abbrev pub number_of : Number → (ℕ → ℕ) → ℕ
number_of x ns = value_of x.operand ns

abbrev pub address_of : Pointer → Address → (ℕ → Address) → Address
address_of (argument i) par ads = par
address_of (address k) par ads = ads k
address_of (global name) par ads = array name

abbrev pub set_address : (ℕ → Address) → ℕ → Address → ℕ → Address
set_address ads k a i = if i == k then a else ads i

abbrev pub when {ℓ} : {A : Type ℓ} → Bool → A → Option A
when b a = if b then some a else none

-- The remainder of a signed word by a positive one has the sign of the word.
abbrev pub signed_rem : ℤ → ℕ → ℕ
signed_rem (pos n) b = n % b
signed_rem (negsuc n) b = (2 ^ 32 - (n + 1) % b) % 2 ^ 32

abbrev pub srem : ℕ → ℤ → Option ℕ
srem a (pos zero) = none
srem a (pos (suc b)) = some (signed_rem (int32 a) (suc b))
srem a (negsuc n) = none

-- The binary instructions at a width; `none` where the behaviour is undefined or not used.
abbrev pub meaning : BinaryOp → ℕ → ℕ → ℕ → Option ℕ
meaning add_bin w a b = some ((a + b) % 2 ^ w)
meaning urem_bin w a b = when (not (b == 0)) (a % b)
meaning srem_bin w a b = if w == 32 then srem a (int32 b) else none
meaning and_bin w a b = some (bit_and a b)
meaning or_bin w a b = some (bit_or a b)

abbrev pub compare_at : Predicate → ℕ → ℕ → ℕ → Option Bool
compare_at slt_pred w a b = when (w == 32) (slt a b)
compare_at eq_pred w a b = some (a == b)
compare_at ne_pred w a b = some (not (a == b))

-- An element inside the bounds, by the indices.
abbrev pub indexed : Address → List ℕ → Option Address
indexed whole_map (zero ∷ f ∷ r ∷ c ∷ []) =
    when (ltb f 2 && (ltb r map_height && ltb c map_width)) (cell f r c)
indexed (array name) (zero ∷ i ∷ []) = some (element name i)
indexed a is = none

abbrev pub plane : ℕ → Map → Plane
plane zero m = m.is_alive
plane (suc n) m = m.neighbour_count

abbrev pub set_plane : ℕ → Plane → Map → Map
set_plane zero p m = record m { is_alive = p }
set_plane (suc n) p m = record m { neighbour_count = p }

abbrev pub array_of : String → List (String × List ℕ) → List ℕ
array_of name [] = []
array_of name (g ∷ gs) = let rest = array_of name gs in if str_eq g.0 name then g.1 else rest

-- The value of this width at an address.
abbrev pub loaded : Module → ℕ → Address → (ℕ → ℕ) → World → Option ℕ
loaded p w (variable k) vs s = when (w == 32) (vs k)
loaded p w (cell f r c) vs s = when (w == 8) (plane f s.map_of r c)
loaded p w (element name i) vs s = if w == 32 then get_elem? (array_of name p.globals) i else none
loaded p w whole_map vs s = none
loaded p w (array name) vs s = none

-- What an `alloca` of this number points at.
abbrev pub allocated : ℕ → Ty → Option Address
allocated k (int_ty w) = when (w == 32) (variable k)
allocated k map_struct_ty = some whole_map
allocated k t = none

abbrev pub set_cell : ℕ → ℕ → ℕ → ℕ → World → World
set_cell f r c n s = record s { map_of = set_plane f (put (plane f s.map_of) r c n) s.map_of }

-- The blocks of a function that has some.
abbrev pub blocks_of : String → Module → List (List Inst)
blocks_of name p = elim (find_fn name p.functions) [ none ↦ [] | some f ↦ f.blocks ]

abbrev pub emit_event : Event → World → World
emit_event e s = record s { events = e ∷ s.events }

abbrev pub with_seed : ℕ → World → World
with_seed n s = record s { seed = n }
