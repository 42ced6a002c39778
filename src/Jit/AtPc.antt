-- ===== src/Jit/AtPc.antt =====
-- `handleLoad` and `handleStore` of asm/src/qrisc-llvm-sim.cpp beside those of the interpreter,
-- asm/src/qrisc-sim.cpp.
use llvm_mipt.Base.{
  ℕ, ◌+◌, ◌≡◌, refl, Bool, true, false, not, ◌==◌, if◌then◌else◌, Bool-cases, inl, inr, leb, List,
  [], ◌∷◌,
}
use llvm_mipt.Instr.{reg_pc}
use llvm_mipt.Sim.State.{
  Machine, Outcome, ok, ◌>>=◌, update, read_uint_from_memory, write_uint_to_memory,
}
use llvm_mipt.Sim.Device.{
  load_value, store_value, is_mmio, getchar, sim_rand, mmio_io_stdin, mmio_io_stdout,
  mmio_sim_clear, mmio_sim_display, mmio_sim_pixel_color, mmio_sim_pixel_shape, mmio_sim_set_pixel,
  mmio_sim_rand,
}
use llvm_mipt.Jit.Builder.{◌>>=◌ as ◌then◌}
use llvm_mipt.Jit.Devices.{handle_load, handle_store}

-- The machine of the compiled code, which has nothing but its old value in the register of the
-- program counter.
abbrev pub at_pc : ℕ → Machine → Machine
at_pc z m = record m { reg = update m.reg reg_pc z }

if-bind {ℓ κ} :
    {A : Type ℓ} {B : Type κ} {x' y' : Outcome B} (f : A → Outcome B) (t : Bool) (x y : Outcome A)
    → x' ≡ (x >>= f)
    → y' ≡ (y >>= f)
    → (if t then x' else y') ≡ ((if t then x else y) >>= f)
if-bind f true x y h k = h
if-bind f false x y h k = k

module _ (z : ℕ) where
  abbrev with_pc : ℕ × Machine → Outcome (ℕ × Machine)
  with_pc r = ok (r.0, at_pc z r.1)

  read-at_pc :
      (addr : ℕ) (m : Machine)
      → (read_uint_from_memory addr (at_pc z m) >>= λ v. ok (v, at_pc z m))
        ≡ ((read_uint_from_memory addr m >>= λ v. ok (v, m)) >>= with_pc)
  unfolding read_uint_from_memory
  read-at_pc addr m = elim (Bool-cases (leb (addr + 4) m.mem_size)) [
    | inl e ↦ rw (e, read_uint_from_memory) refl
    | inr e ↦ rw (e, read_uint_from_memory) refl
  ]

  getchar-at_pc :
      (m : Machine) (xs : List ℕ)
      → m.input ≡ xs
      → ok (getchar (at_pc z m)) ≡ (ok (getchar m) >>= with_pc)
  unfolding getchar
  getchar-at_pc m [] e = rw (e, getchar) refl
  getchar-at_pc m (x ∷ xs) e = rw (e, getchar) refl

  pub load-at_pc :
      (addr : ℕ) (m : Machine) → handle_load addr (at_pc z m) ≡ (load_value addr m >>= with_pc)
  unfolding handle_load load_value sim_rand
  load-at_pc addr m =
      if-bind with_pc (not (is_mmio addr)) _ _
        (if-bind with_pc (leb m.mem_size addr) _ _ refl (read-at_pc addr m))
        (if-bind with_pc (addr == mmio_io_stdin) _ _ (getchar-at_pc m m.input refl) (
          if-bind with_pc (addr == mmio_sim_pixel_color) _ _ refl (
            if-bind with_pc (addr == mmio_sim_pixel_shape) _ _ refl
              (if-bind with_pc (addr == mmio_sim_rand) _ _ refl refl))))

  write-at_pc :
      (addr value : ℕ) (m : Machine)
      → write_uint_to_memory addr value (at_pc z m)
        ≡ (write_uint_to_memory addr value m >>= λ r. ok (at_pc z r))
  unfolding write_uint_to_memory
  write-at_pc addr value m = if-bind _ (leb (addr + 4) m.mem_size) _ _ refl refl

  pub store-at_pc :
      (value addr : ℕ) (m : Machine)
      → handle_store value addr (at_pc z m) ≡ (store_value addr value m >>= λ r. ok (at_pc z r))
  unfolding handle_store store_value
  store-at_pc value addr m =
      if-bind f (not (is_mmio addr)) _ _
        (if-bind f (leb m.mem_size addr) _ _ refl (write-at_pc addr value m))
        (if-bind f (addr == mmio_io_stdout) _ _ refl (
          if-bind f (addr == mmio_sim_clear) _ _ refl (
            if-bind f (addr == mmio_sim_display) _ _ refl (
              if-bind f (addr == mmio_sim_pixel_color) _ _ refl (
                if-bind f (addr == mmio_sim_pixel_shape) _ _ refl
                  (if-bind f (addr == mmio_sim_set_pixel) _ _ refl refl))))))
    where
      f : Machine → Outcome Machine
      f r = ok (at_pc z r)
