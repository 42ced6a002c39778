-- ===== src/Sim/Memory.antt =====
-- Words in memory: what a read after a write gives, in asm/src/qrisc-sim.cpp.
use llvm_mipt.Base.{
  ℕ, ◌+◌, ◌*◌, ◌^◌, ◌≤◌, ◌<◌, ◌≡◌, refl, subst, leb, arith, ◌⊎◌, inl, inr, Bool-cases,
}
use llvm_mipt.Sim.State.{
  Machine, ok, stop, update, byte_of, outside_memory, read_uint_from_memory, write_uint_to_memory,
}

-- Four bytes make up the word that they are cut from.
pub bytes_join :
    (v : ℕ)
    → v < 2 ^ 32
    → byte_of v 0 + byte_of v 1 * 2 ^ 8 + byte_of v 2 * 2 ^ 16 + byte_of v 3 * 2 ^ 24 ≡ v
bytes_join v h = omega arith

-- The machine after a write.
abbrev pub written : ℕ → ℕ → Machine → Machine
written addr v m = record m {
  byte =
      update
        (update (update (update m.byte addr (byte_of v 0)) (addr + 1) (byte_of v 1)) (addr + 2)
          (byte_of v 2))
        (addr + 3) (byte_of v 3);
}

pub write-written :
    (addr v : ℕ) (m m' : Machine) → write_uint_to_memory addr v m ≡ ok m' → written addr v m ≡ m'
unfolding write_uint_to_memory
write-written addr v m m' e = elim (Bool-cases (leb (addr + 4) m.mem_size)) [
  | inl h ↦ let q : ok (written addr v m) ≡ ok m' = rw (h, write_uint_to_memory) at e in cc
  | inr h ↦ let q : stop (outside_memory addr) ≡ ok m' = rw (h, write_uint_to_memory) at e in cc
]

written_apart :
    (addr v k : ℕ) (m : Machine)
    → (k < addr) ⊎ (addr + 4 ≤ k)
    → (written addr v m).byte k ≡ m.byte k
written_apart addr v k m h = ground arith

-- A write inside the memory succeeds, and the word reads back from the same address.
pub read-write :
    (addr v : ℕ) (m : Machine)
    → v < 2 ^ 32
    → addr + 4 ≤ m.mem_size
    → (m' : Machine) × (write_uint_to_memory addr v m ≡ ok m')
      × (read_uint_from_memory addr m' ≡ ok v)
unfolding write_uint_to_memory read_uint_from_memory
read-write addr v m h fits = (written addr v m, ground arith, ground (arith, bytes_join v h))

-- A write does not change a word that it does not overlap, nor any register or device.
pub read-write_apart :
    (addr v other : ℕ) (m m' : Machine)
    → write_uint_to_memory addr v m ≡ ok m'
    → (other + 4 ≤ addr) ⊎ (addr + 4 ≤ other)
    → (read_uint_from_memory other m' ≡ read_uint_from_memory other m)
      × (m'.reg ≡ m.reg)
      × (m'.mem_size ≡ m.mem_size)
      × (m'.events ≡ m.events)
unfolding write_uint_to_memory read_uint_from_memory
read-write_apart addr v other m m' e apart =
    subst
      (λ n.
        (read_uint_from_memory other n ≡ read_uint_from_memory other m)
        × (n.reg ≡ m.reg)
        × (n.mem_size ≡ m.mem_size)
        × (n.events ≡ m.events))
      (write-written addr v m m' e)
      (
        rw (
          written_apart addr v other m (ground arith),
          written_apart addr v (other + 1) m (ground arith),
          written_apart addr v (other + 2) m (ground arith),
          written_apart addr v (other + 3) m (ground arith),
        ),
        refl,
        refl,
        refl,
      )

-- A write of a word inside the memory succeeds. The word then reads back, every word that it does
-- not overlap reads as before, and the registers, the size of the memory and the events are as they
-- were.
pub write_uint_to_memory_lem :
    (addr v : ℕ) (m : Machine)
    → v < 2 ^ 32
    → addr + 4 ≤ m.mem_size
    → (m' : Machine) × (write_uint_to_memory addr v m ≡ ok m')
      × (read_uint_from_memory addr m' ≡ ok v)
      × ((other : ℕ)
          → (other + 4 ≤ addr) ⊎ (addr + 4 ≤ other)
          → read_uint_from_memory other m' ≡ read_uint_from_memory other m)
      × (m'.reg ≡ m.reg)
      × (m'.mem_size ≡ m.mem_size)
      × (m'.events ≡ m.events)
write_uint_to_memory_lem addr v m h fits =
    let (m', w, r) = read-write addr v m h fits in
    let same = read-write_apart addr v (addr + 4) m m' w (inr (omega arith)) in
    (
      m',
      w,
      r,
      λ other apart. (read-write_apart addr v other m m' w apart).0,
      same.1,
      same.2,
      same.3,
    )

-- A word access fails exactly where it would leave the memory, reads and writes alike.
pub access_outside :
    (addr v : ℕ) (m : Machine)
    → m.mem_size < addr + 4
    → (read_uint_from_memory addr m ≡ stop (outside_memory addr))
      × (write_uint_to_memory addr v m ≡ stop (outside_memory addr))
unfolding write_uint_to_memory read_uint_from_memory
access_outside addr v m h = ground arith
