-- ===== src/Sim/Load.antt =====
-- Loading a program in `Simulator::run` of asm/src/qrisc-sim.cpp: the machine that it starts with.
use llvm_mipt.Base.{
  ℕ, ◌+◌, ◌*◌, ◌/◌, ◌%◌, ◌^◌, ◌≤◌, ◌<◌, ◌≡◌, refl, ap, subst, true, false, some, List, [], ltb, leb,
  arith, length, get_elem?, get_elem?-lt, inl, inr, Option-cases,
}
use llvm_mipt.Instr.{Instr, reg_sp, reg_bp}
use llvm_mipt.Sim.State.{Machine, ok, update, byte_of, read_uint_from_memory}
use llvm_mipt.Sim.Run.{load, image_byte, binary_size, run, run_loop, RunResult}
use llvm_mipt.Sim.Memory.{bytes_join}
use llvm_mipt.Sim.Invariant.{Ends, run_loop-Ends}
use llvm_mipt.Sim.Invariant.Parts.{IsValid}

-- The machine that `load` gives where the binary fits.
abbrev pub initial : ℕ → ℕ → List ℕ → ℕ → List Instr → Machine
initial memory_size stack_addr input seed instrs = record {
  reg = update (update (λ k. 0) reg_sp stack_addr) reg_bp stack_addr;
  byte = image_byte instrs;
  mem_size = memory_size;
  pixel_color = 0xffffffff;
  pixel_shape = 32;
  input = input;
  seed = seed;
  events = [];
}

pub load-initial :
    (memory_size stack_addr : ℕ) (input : List ℕ) (seed : ℕ) (instrs : List Instr)
    → binary_size instrs ≤ memory_size
    → load memory_size stack_addr input seed instrs
      ≡ ok (initial memory_size stack_addr input seed instrs)
unfolding load
load-initial memory_size stack_addr input seed instrs h =
    let fits : ltb memory_size (binary_size instrs) ≡ false = ground arith in rw fits

image_byte-lt : (instrs : List Instr) (k : ℕ) → image_byte instrs k < 2 ^ 8
unfolding image_byte
image_byte-lt instrs k = elim (Option-cases (get_elem? instrs (k / 4))) [
  | inl e ↦ rw (e, image_byte) (omega arith)
  | inr (i, e) ↦ rw (e, image_byte) (omega arith)
]

pub initial-IsValid :
    (memory_size stack_addr : ℕ) (input : List ℕ) (seed : ℕ) (instrs : List Instr)
    → memory_size ≤ 2 ^ 32
    → stack_addr < 2 ^ 32
    → seed < 2 ^ 32
    → IsValid (initial memory_size stack_addr input seed instrs)
initial-IsValid memory_size stack_addr input seed instrs hm hs hd = record {
  regs = λ k. ground arith;
  zero = refl;
  bytes = image_byte-lt instrs;
  color = omega arith;
  shape = omega arith;
  seed = hd;
  size = hm;
}

-- With a memory that holds the binary, a run starts, and however far its fuel takes it, the machine
-- stays valid with its memory of the same size; it halts only at the end of the binary, and no
-- assert fails.
pub run-Ends :
    (fuel memory_size stack_addr : ℕ) (input : List ℕ) (seed : ℕ) (instrs : List Instr)
    → binary_size instrs ≤ memory_size
    → memory_size ≤ 2 ^ 32
    → stack_addr < 2 ^ 32
    → seed < 2 ^ 32
    → (r : RunResult) × (run fuel memory_size stack_addr input seed instrs ≡ ok r)
      × Ends memory_size (binary_size instrs) r
unfolding run
run-Ends fuel memory_size stack_addr input seed instrs fits hm hs hd =
    let m = initial memory_size stack_addr input seed instrs in
    (
      run_loop fuel (binary_size instrs) m,
      rw (load-initial memory_size stack_addr input seed instrs fits),
      run_loop-Ends fuel memory_size (binary_size instrs) m
          (initial-IsValid memory_size stack_addr input seed instrs hm hs hd) refl,
    )

pub image_byte-instr :
    (instrs : List Instr) (i : Instr) (idx k : ℕ)
    → get_elem? instrs idx ≡ some i
    → k < 4
    → image_byte instrs (idx * 4 + k) ≡ byte_of i.encoding k
unfolding image_byte
image_byte-instr instrs i idx k e h =
    let q : (idx * 4 + k) / 4 ≡ idx = omega arith in
    let r : (idx * 4 + k) % 4 ≡ k = omega arith in rw (q, e, r, image_byte)

-- Each instruction of the program is fetched, whole, from four times its index.
pub fetch-initial :
    (memory_size stack_addr : ℕ) (input : List ℕ) (seed : ℕ) (instrs : List Instr) (idx : ℕ)
    (i : Instr)
    → binary_size instrs ≤ memory_size
    → get_elem? instrs idx ≡ some i
    → i.encoding < 2 ^ 32
    → read_uint_from_memory (idx * 4) (initial memory_size stack_addr input seed instrs)
      ≡ ok i.encoding
unfolding read_uint_from_memory
fetch-initial memory_size stack_addr input seed instrs idx i fits e h =
    let lt : idx < length instrs = get_elem?-lt instrs idx i e in
    let inside : leb (idx * 4 + 4) memory_size ≡ true = ground arith in
    let first : image_byte instrs (idx * 4) ≡ byte_of i.encoding 0 =
      subst (λ t. image_byte instrs t ≡ byte_of i.encoding 0) (omega arith)
        (image_byte-instr instrs i idx 0 e (omega arith)) in
    rw
      (
        inside,
        first,
        image_byte-instr instrs i idx 1 e (omega arith),
        image_byte-instr instrs i idx 2 e (omega arith),
        image_byte-instr instrs i idx 3 e (omega arith),
      )
      (ap ok (bytes_join i.encoding h))
