-- ===== src/Sim/Isa/Steps.antt =====
-- What the pieces of an instruction may change.
use llvm_mipt.Base.{
  ℕ, ◌≡◌, ◌≢◌, refl, ◌∙◌, ap, Bool, true, false, ◌==◌, ltb, arith, Bool-cases, inl, inr, ◌⊎◌,
}
use llvm_mipt.Base.Word.{add32}
use llvm_mipt.Instr.{Instr, r1, r2, r3, imm, reg_pc, reg_count}
use llvm_mipt.Sim.State.{
  Machine, Outcome, ok, stop, ◌>>=◌, or_assert, write_reg, read_uint_from_memory,
  write_uint_to_memory,
}
use llvm_mipt.Sim.Device.{handle_load, handle_store, load_value, store_value, getchar, sim_rand}
use llvm_mipt.Sim.Exec.{r_op, i_op, branch, jalr, advance}

abbrev pub Ensures {ℓ} : {A : Type ℓ} → (A → Type 0) → Outcome A → Type 0
Ensures P (ok a) = P a
Ensures P (stop e) = Unit

pub Ensures-bind {ℓ κ} :
    {A : Type ℓ} {B : Type κ} (P : A → Type 0) (Q : B → Type 0) (m : Outcome A) (f : A → Outcome B)
    → Ensures P m
    → ((a : A) → P a → Ensures Q (f a))
    → Ensures Q (m >>= f)
Ensures-bind P Q (ok a) f h k = k a h
Ensures-bind P Q (stop e) f h k = tt

-- Registers but `d` and the program counter are as they were.
abbrev pub SameRegs : ℕ → Machine → Machine → Type 0
SameRegs d m m' = (k : ℕ) → k ≢ d → k ≢ reg_pc → m'.reg k ≡ m.reg k

-- Memory, display and output are as they were.
pub record SameStore (m m' : Machine) : Type 0 where
  pub same_byte : m'.byte ≡ m.byte
  pub same_color : m'.pixel_color ≡ m.pixel_color
  pub same_shape : m'.pixel_shape ≡ m.pixel_shape
  pub same_events : m'.events ≡ m.events

-- The input and the random numbers are as they were.
pub record SameInput (m m' : Machine) : Type 0 where
  pub same_input : m'.input ≡ m.input
  pub same_seed : m'.seed ≡ m.seed

pub record Frame (d : ℕ) (stores loads : Type 0) (m m' : Machine) : Type 0 where
  pub regs : SameRegs d m m'
  pub store : stores ⊎ SameStore m m'
  pub input : loads ⊎ SameInput m m'

abbrev Quiet : ℕ → Machine → Machine → Type 0
Quiet d m m' = SameRegs d m m' × SameStore m m' × SameInput m m'

same_store : (m : Machine) → SameStore m m
same_store m = record { same_byte = refl; same_color = refl; same_shape = refl; same_events = refl }

same_input : (m : Machine) → SameInput m m
same_input m = record { same_input = refl; same_seed = refl }

Quiet-refl : (d : ℕ) (m : Machine) → Quiet d m m
Quiet-refl d m = (λ k _ _. refl, same_store m, same_input m)

-- Writing register `d` changes no other.
write_reg-Ensures : (d v : ℕ) (m : Machine) → Ensures (Quiet d m) (write_reg d v m)
unfolding write_reg
write_reg-Ensures d v m = elim (Bool-cases (ltb d reg_count)) [
  | inr l ↦ rw (l, write_reg) tt
  | inl l ↦ elim (Bool-cases (d == reg_pc)) [
    | inl e ↦ rw (l, e, write_reg) tt
    | inr e ↦ elim (Bool-cases (d == 0)) [
      | inl z ↦ rw (l, e, z, write_reg) (Quiet-refl d m)
      | inr z ↦
          rw (l, e, z, write_reg)
            (
              λ k h _. ground (arith, h),
              record { same_byte = refl; same_color = refl; same_shape = refl; same_events = refl },
              record { same_input = refl; same_seed = refl },
            )
    ]
  ]
]

Ensures-any :
    {A B : Type 0} (Q : B → Type 0) (r : Outcome A) (f : A → Outcome B)
    → ((a : A) → Ensures Q (f a))
    → Ensures Q (r >>= f)
Ensures-any Q (ok a) f h = h a
Ensures-any Q (stop e) f h = tt

pub r_op-Ensures :
    (f : ℕ → ℕ → Outcome ℕ) (ins : Instr) (m : Machine) → Ensures (Quiet (r1 ins) m) (r_op f ins m)
unfolding r_op
r_op-Ensures f ins m = Ensures-any (Quiet (r1 ins) m) (or_assert (r3 ins)) _ λ c.
    Ensures-any (Quiet (r1 ins) m) (f (m.reg (r2 ins)) (m.reg c)) _
      λ v. write_reg-Ensures (r1 ins) v m

pub i_op-Ensures :
    (f : ℕ → ℕ → Outcome ℕ) (ins : Instr) (m : Machine) → Ensures (Quiet (r1 ins) m) (i_op f ins m)
unfolding i_op
i_op-Ensures f ins m =
    Ensures-any (Quiet (r1 ins) m) (or_assert (imm ins)) _ λ i.
      Ensures-any (Quiet (r1 ins) m) (f (m.reg (r2 ins)) i) _ λ v. write_reg-Ensures (r1 ins) v m

abbrev pub QuietMove : ℕ → Machine → Machine × ℕ → Type 0
QuietMove d m r = Quiet d m r.0

pub advance-Ensures :
    (d pc : ℕ) (m : Machine) (r : Outcome Machine)
    → Ensures (Quiet d m) r
    → Ensures (QuietMove d m) (advance pc r)
advance-Ensures d pc m (ok m') h = h
advance-Ensures d pc m (stop e) h = tt

pub branch-Ensures :
    (cond : Bool) (d pc : ℕ) (ins : Instr) (m : Machine)
    → Ensures (QuietMove d m) (branch cond pc ins m)
unfolding branch
branch-Ensures true d pc ins m =
    Ensures-any (QuietMove d m) (or_assert (imm ins)) _ λ i. Quiet-refl d m
branch-Ensures false d pc ins m = Quiet-refl d m

pub jalr-Ensures :
    (pc : ℕ) (ins : Instr) (m : Machine) → Ensures (QuietMove (r1 ins) m) (jalr pc ins m)
unfolding jalr
jalr-Ensures pc ins m = Ensures-any (QuietMove (r1 ins) m) (or_assert (imm ins)) _ λ i.
    Ensures-bind (Quiet (r1 ins) m) (QuietMove (r1 ins) m) (write_reg (r1 ins) pc m) _
      (write_reg-Ensures (r1 ins) pc m) λ m' q. q

-- Reading a device changes neither registers nor memory.
abbrev Reads : Machine → ℕ × Machine → Type 0
Reads m r = (r.1.reg ≡ m.reg) × SameStore m r.1

load_value-Ensures : (addr : ℕ) (m : Machine) → Ensures (Reads m) (load_value addr m)
unfolding load_value read_uint_from_memory getchar sim_rand
load_value-Ensures addr m = ground arith

abbrev pub LoadFrame : ℕ → Machine → Machine → Type 0
LoadFrame d m m' = SameRegs d m m' × SameStore m m'

pub handle_load-Ensures :
    (ins : Instr) (m : Machine) → Ensures (LoadFrame (r1 ins) m) (handle_load ins m)
unfolding handle_load
handle_load-Ensures ins m = Ensures-any (LoadFrame (r1 ins) m) (or_assert (imm ins)) _ λ i.
    Ensures-bind (Reads m) (LoadFrame (r1 ins) m) (load_value (add32 (m.reg (r2 ins)) i) m) _
      (load_value-Ensures (add32 (m.reg (r2 ins)) i) m)
      λ r h. weaken (write_reg (r1 ins) r.0 r.1) r h (write_reg-Ensures (r1 ins) r.0 r.1)
  where
    weaken :
        (w : Outcome Machine) (r : ℕ × Machine)
        → Reads m r
        → Ensures (Quiet (r1 ins) r.1) w
        → Ensures (LoadFrame (r1 ins) m) w
    weaken (ok m') r h q = (
      λ k a b. q.0 k a b ∙ ap (λ f. f k) h.0,
      record {
        same_byte = q.1.same_byte ∙ h.1.same_byte;
        same_color = q.1.same_color ∙ h.1.same_color;
        same_shape = q.1.same_shape ∙ h.1.same_shape;
        same_events = q.1.same_events ∙ h.1.same_events;
      },
    )
    weaken (stop e) r h q = tt

store_value-Ensures :
    (addr v : ℕ) (m : Machine)
    → Ensures (λ m'. (m'.reg ≡ m.reg) × SameInput m m') (store_value addr v m)
unfolding store_value write_uint_to_memory
store_value-Ensures addr v m = ground arith

pub handle_store-Ensures :
    (ins : Instr) (m : Machine)
    → Ensures (λ m'. (m'.reg ≡ m.reg) × SameInput m m') (handle_store ins m)
unfolding handle_store
handle_store-Ensures ins m =
    Ensures-any (λ m'. (m'.reg ≡ m.reg) × SameInput m m') (or_assert (imm ins)) _
      λ i. store_value-Ensures (add32 (m.reg (r2 ins)) i) (m.reg (r1 ins)) m
