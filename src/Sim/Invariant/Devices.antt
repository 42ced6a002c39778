-- ===== src/Sim/Invariant/Devices.antt =====
-- The invariant under loads and stores.
use llvm_mipt.Base.{ℕ, ◌%◌, ◌^◌, ◌≡◌, refl, Bool, true, false, List, [], ◌∷◌, if◌then◌else◌, arith}
use llvm_mipt.Base.Word.{add32}
use llvm_mipt.Instr.Opcodes.{InstrType, invalid, si_type, ui_type, r_type}
use llvm_mipt.Instr.{Instr, r1, r2, imm, is_i, get_type, extend_imm}
use llvm_mipt.Instr.Decode.{r1-lt, imm_field, sign_extend-lt}
use llvm_mipt.Sim.State.{Machine, Outcome, ok, ◌>>=◌, or_assert, read_uint_from_memory}
use llvm_mipt.Sim.Device.{
  load_value, store_value, handle_load, handle_store, getchar, sim_rand, next_seed,
}
use llvm_mipt.Sim.Invariant.Parts.{
  IsValid, Safe, Safe-bind, Keeps, IsWord, write_reg-Safe, read_uint-Safe, write_uint-Safe,
}

next_seed-IsWord : (s : ℕ) → IsWord (next_seed s)
unfolding next_seed
next_seed-IsWord s = ground arith

pub imm-Safe : (ins : Instr) → is_i (get_type ins) ≡ true → Safe IsWord (or_assert (imm ins))
imm-Safe ins t = rw (imm_field ins) (go (get_type ins) t)
  where
    go :
        (t : InstrType)
        → is_i t ≡ true
        → Safe IsWord (or_assert (extend_imm t (ins.encoding % 2 ^ 16)))
    go si_type h = sign_extend-lt (ins.encoding % 2 ^ 16) (omega arith)
    go ui_type h = omega arith
    go r_type h = cc
    go invalid h = cc

pub if-Safe {ℓ} :
    {A : Type ℓ} (P : A → Type 0) (b : Bool) (x y : Outcome A)
    → (b ≡ true → Safe P x)
    → (b ≡ false → Safe P y)
    → Safe P (if b then x else y)
if-Safe P true x y h k = h refl
if-Safe P false x y h k = k refl

-- A value read from a device or the memory, with the machine after it.
Loaded : Machine → ℕ × Machine → Type 0
Loaded m r = IsWord r.0 × Keeps m r.1

with_input : (m : Machine) (rest : List ℕ) → IsValid m → Keeps m (record m { input = rest })
with_input m rest v = (
  record {
    regs = v.regs;
    zero = v.zero;
    bytes = v.bytes;
    color = v.color;
    shape = v.shape;
    seed = v.seed;
    size = v.size;
  },
  refl,
)

getchar-Loaded : (m : Machine) (xs : List ℕ) → m.input ≡ xs → IsValid m → Loaded m (getchar m)
unfolding Loaded getchar
getchar-Loaded m [] e v = rw (e, getchar) (omega arith, (v, refl))
getchar-Loaded m (c ∷ rest) e v = rw (e, getchar) (omega arith, with_input m rest v)

sim_rand-Loaded : (m : Machine) → IsValid m → Loaded m (sim_rand m)
unfolding Loaded sim_rand
sim_rand-Loaded m v = (
  next_seed-IsWord m.seed,
  (
    record {
      regs = v.regs;
      zero = v.zero;
      bytes = v.bytes;
      color = v.color;
      shape = v.shape;
      seed = next_seed-IsWord m.seed;
      size = v.size;
    },
    refl,
  ),
)

load_value-Safe : (addr : ℕ) (m : Machine) → IsValid m → Safe (Loaded m) (load_value addr m)
unfolding load_value Loaded
load_value-Safe addr m v =
    let word : Safe (Loaded m) (read_uint_from_memory addr m >>= λ w. ok (w, m)) =
      Safe-bind IsWord (Loaded m) (read_uint_from_memory addr m) _ (read_uint-Safe addr m v)
        (λ w h. (h, (v, refl))) in
    ground (arith, word, getchar-Loaded m m.input refl v, sim_rand-Loaded m v, v.color, v.shape, v)

pub handle_load-Safe :
    (ins : Instr) (m : Machine)
    → is_i (get_type ins) ≡ true
    → IsValid m
    → Safe (Keeps m) (handle_load ins m)
unfolding handle_load Loaded
handle_load-Safe ins m t v =
    Safe-bind IsWord (Keeps m) (or_assert (imm ins)) _ (imm-Safe ins t) λ i h.
      Safe-bind (Loaded m) (Keeps m) (load_value (add32 (m.reg (r2 ins)) i) m) _
        (load_value-Safe _ m v) λ r k. write_reg-Safe (r1 ins) r.0 m r.1 (r1-lt ins) k.0 k.1

store_value-Safe :
    (addr value : ℕ) (m : Machine)
    → IsWord value
    → IsValid m
    → Safe (Keeps m) (store_value addr value m)
unfolding store_value
store_value-Safe addr value m h v = ground (arith, write_uint-Safe addr value m v, v.regs, v.bytes)

pub handle_store-Safe :
    (ins : Instr) (m : Machine)
    → is_i (get_type ins) ≡ true
    → IsValid m
    → Safe (Keeps m) (handle_store ins m)
unfolding handle_store
handle_store-Safe ins m t v =
    Safe-bind IsWord (Keeps m) (or_assert (imm ins)) _ (imm-Safe ins t)
      λ i h. store_value-Safe (add32 (m.reg (r2 ins)) i) (m.reg (r1 ins)) m (v.regs (r1 ins)) v
