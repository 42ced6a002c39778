-- ===== src/Sim/Invariant/Parts.antt =====
-- The invariant of the machine, and reads and writes of registers and memory.
use llvm_mipt.Base.{
  ℕ, ◌+◌, ◌^◌, ◌≤◌, ◌<◌, ◌≡◌, ◌≢◌, refl, ◌==◌, leb, lt→ltb, arith, Bool-cases, inl, inr,
}
use llvm_mipt.Instr.{reg_pc, reg_count}
use llvm_mipt.Sim.State.{
  Machine, Outcome, ok, stop, ◌>>=◌, assert_failed, write_reg, read_uint_from_memory,
  write_uint_to_memory,
}

pub record IsValid (m : Machine) : Type 0 where
  pub regs : (k : ℕ) → m.reg k < 2 ^ 32
  pub zero : m.reg 0 ≡ 0
  pub bytes : (k : ℕ) → m.byte k < 2 ^ 8
  pub color : m.pixel_color < 2 ^ 32
  pub shape : m.pixel_shape < 2 ^ 32
  pub seed : m.seed < 2 ^ 32
  pub size : m.mem_size ≤ 2 ^ 32

-- A result with the property, or a stop that is no failed assert.
abbrev pub Safe {ℓ} : {A : Type ℓ} → (A → Type 0) → Outcome A → Type 0
Safe P (ok a) = P a
Safe P (stop e) = e ≢ assert_failed

pub Safe-bind {ℓ κ} :
    {A : Type ℓ} {B : Type κ} (P : A → Type 0) (Q : B → Type 0) (m : Outcome A) (f : A → Outcome B)
    → Safe P m
    → ((a : A) → P a → Safe Q (f a))
    → Safe Q (m >>= f)
Safe-bind P Q (ok a) f h k = k a h
Safe-bind P Q (stop e) f h k = h

abbrev pub Keeps : Machine → Machine → Type 0
Keeps m m' = IsValid m' × (m'.mem_size ≡ m.mem_size)

-- The same with a program counter.
abbrev pub Moves : Machine → Machine × ℕ → Type 0
Moves m r = Keeps m r.0 × (r.1 < 2 ^ 32)

abbrev pub IsWord : ℕ → Type 0
IsWord v = v < 2 ^ 32

pub write_reg-Safe :
    (idx v : ℕ) (m m' : Machine)
    → idx < reg_count
    → IsWord v
    → Keeps m m'
    → Safe (Keeps m) (write_reg idx v m')
unfolding write_reg
write_reg-Safe idx v m m' l h k = elim (Bool-cases (idx == reg_pc)) [
  | inl e ↦ rw (lt→ltb idx 32 l, e, write_reg) (λ z. cc)
  | inr e ↦ elim (Bool-cases (idx == 0)) [
    | inl z ↦ rw (lt→ltb idx 32 l, e, z, write_reg) k
    | inr z ↦
        rw (lt→ltb idx 32 l, e, z, write_reg)
          (
            record {
              regs = λ j. ground (arith, k.0.regs j);
              zero = ground (arith, k.0.zero);
              bytes = k.0.bytes;
              color = k.0.color;
              shape = k.0.shape;
              seed = k.0.seed;
              size = k.0.size;
            },
            k.1,
          )
  ]
]

pub read_uint-Safe :
    (addr : ℕ) (m : Machine) → IsValid m → Safe IsWord (read_uint_from_memory addr m)
unfolding read_uint_from_memory
read_uint-Safe addr m v = elim (Bool-cases (leb (addr + 4) m.mem_size)) [
  | inl e ↦
      rw (e, read_uint_from_memory)
        (omega (arith, v.bytes addr, v.bytes (addr + 1), v.bytes (addr + 2), v.bytes (addr + 3)))
  | inr e ↦ rw (e, read_uint_from_memory) (λ z. cc)
]

pub write_uint-Safe :
    (addr value : ℕ) (m : Machine) → IsValid m → Safe (Keeps m) (write_uint_to_memory addr value m)
unfolding write_uint_to_memory
write_uint-Safe addr value m v = elim (Bool-cases (leb (addr + 4) m.mem_size)) [
  | inl e ↦
      rw (e, write_uint_to_memory)
        (
          record {
            regs = v.regs;
            zero = v.zero;
            bytes = λ j. ground (arith, v.bytes j);
            color = v.color;
            shape = v.shape;
            seed = v.seed;
            size = v.size;
          },
          refl,
        )
  | inr e ↦ rw (e, write_uint_to_memory) (λ z. cc)
]
