-- ===== src/Sim/Rounds.antt =====
-- One round of the interpreter, asm/src/qrisc-sim.cpp, in a program that only goes forward.
use llvm_mipt.Base.{
  ℕ, zero, suc, ◌+◌, ◌*◌, ◌/◌, ◌^◌, ◌≤◌, ◌<◌, ◌≡◌, refl, ap, ◌∙◌, subst, true, leb, some, List, [],
  ◌∷◌, length, get_elem?, get_elem?-lt, get_elem?-total, arith, Bool-cases, Option-cases, inl, inr,
  if◌then◌else◌,
}
use llvm_mipt.Instr.Opcodes.{of_code}
use llvm_mipt.Instr.{Instr, get_opcode}
use llvm_mipt.Sim.State.{
  Machine, Outcome, ok, stop, Stop, outside_memory, trap, illegal_opcode, get_pc,
  read_uint_from_memory,
}
use llvm_mipt.Sim.Run.{execute, step, image_byte, binary_size}
use llvm_mipt.Sim.Invariant.Parts.{IsValid, Safe}
use llvm_mipt.Sim.Invariant.Steps.{Advances}
use llvm_mipt.Sim.Invariant.{execute-Safe}
use llvm_mipt.Sim.Isa.Steps.{Ensures}
use llvm_mipt.Sim.Load.{initial, fetch-initial}
use llvm_mipt.Sim.Forward.{is_forward, execute-is_forward}

-- Every word of the program is a word, and goes forward.
abbrev pub AllForward : List Instr → Type 0
AllForward [] = Unit
AllForward (i ∷ is) = (i.encoding < 2 ^ 32) × (is_forward i ≡ true) × AllForward is

get_elem?-AllForward :
    (is : List Instr) (k : ℕ) (i : Instr)
    → AllForward is
    → get_elem? is k ≡ some i
    → (i.encoding < 2 ^ 32) × (is_forward i ≡ true)
get_elem?-AllForward [] k i a e = cc
get_elem?-AllForward (j ∷ is) zero i a e =
    let same : j ≡ i = cc in
    subst (λ x. (x.encoding < 2 ^ 32) × (is_forward x ≡ true)) same (a.0, a.1)
get_elem?-AllForward (j ∷ is) (suc k) i a e = get_elem?-AllForward is k i (a.2) e

-- The state of a run at index `k`, whose memory is that of the program still.
pub record At (instrs : List Instr) (size k : ℕ) (m : Machine) : Type 0 where
  pub valid : IsValid m
  pub at_index : get_pc m ≡ k * 4
  pub same_size : m.mem_size ≡ size
  pub image : m.byte ≡ image_byte instrs

read-same :
    (addr : ℕ) (m m' : Machine)
    → m.byte ≡ m'.byte
    → m.mem_size ≡ m'.mem_size
    → read_uint_from_memory addr m ≡ read_uint_from_memory addr m'
unfolding read_uint_from_memory
read-same addr m m' b s = rw (b, s) refl

-- Behind the program the memory is 0.
image_byte-behind :
    (instrs : List Instr) (k j : ℕ) → length instrs ≤ k → j < 4 → image_byte instrs (k * 4 + j) ≡ 0
unfolding image_byte
image_byte-behind instrs k j h l =
    let q : (k * 4 + j) / 4 ≡ k = omega arith in
    elim (Option-cases (get_elem? instrs k)) [
      | inl e ↦ rw (q, e, image_byte) refl
      | inr (i, e) ↦ let z = get_elem?-lt instrs k i e in omega arith
    ]

byte_behind :
    (instrs : List Instr) (size k j : ℕ) (m : Machine)
    → At instrs size k m
    → length instrs ≤ k
    → j < 4
    → m.byte (k * 4 + j) ≡ 0
byte_behind instrs size k j m a h l =
    ap (λ f. f (k * 4 + j)) a.image ∙ image_byte-behind instrs k j h l

read-behind :
    (instrs : List Instr) (size k : ℕ) (m : Machine)
    → At instrs size k m
    → length instrs ≤ k
    → read_uint_from_memory (k * 4) m
      ≡ (if leb (k * 4 + 4) m.mem_size then ok 0 else stop (outside_memory (k * 4)))
unfolding read_uint_from_memory
read-behind instrs size k m a h =
    let first : m.byte (k * 4) ≡ 0 =
      subst (λ n. m.byte n ≡ 0) (omega arith) (byte_behind instrs size k 0 m a h (omega arith)) in
    rw
      (
        first,
        byte_behind instrs size k 1 m a h (omega arith),
        byte_behind instrs size k 2 m a h (omega arith),
        byte_behind instrs size k 3 m a h (omega arith),
      )
      refl

-- There no instruction is.
pub step-behind :
    (instrs : List Instr) (size k : ℕ) (m : Machine)
    → At instrs size k m
    → length instrs ≤ k
    → (e : Stop) × (step m ≡ stop e)
unfolding step execute get_opcode of_code
step-behind instrs size k m a h = elim (Bool-cases (leb (k * 4 + 4) m.mem_size)) [
  | inl e ↦
      (trap (illegal_opcode 0), rw (a.at_index, read-behind instrs size k m a h, e, step) refl)
  | inr e ↦ (outside_memory (k * 4), rw (a.at_index, read-behind instrs size k m a h, e, step) refl)
]

-- Inside the program a round stops or comes to a later index.
pub step-inside :
    (instrs : List Instr) (size k : ℕ) (m : Machine)
    → At instrs size k m
    → AllForward instrs
    → binary_size instrs ≤ size
    → binary_size instrs + 2 ^ 17 ≤ 2 ^ 32
    → k < length instrs
    → Ensures (λ m'. (k' : ℕ) × (k < k') × (k < length instrs) × At instrs size k' m') (step m)
unfolding step
step-inside instrs size k m a f fits small h =
    let (i, e) = get_elem?-total instrs k h in
    let (word, ahead) = get_elem?-AllForward instrs k i f e in
    let read =
      read-same (k * 4) m (initial size 0 [] 0 instrs) a.image a.same_size
      ∙ fetch-initial size 0 [] 0 instrs k i fits e word in
    rw (a.at_index, read, step) (by_step (execute i m) i ahead refl (execute-Safe i m a.valid))
  where
    by_step :
        (o : Outcome Machine) (i : Instr)
        → is_forward i ≡ true
        → execute i m ≡ o
        → Safe (Advances m) o
        → Ensures (λ m'. (k' : ℕ) × (k < k') × (k < length instrs) × At instrs size k' m') o
    by_step (stop e) i ahead x v = tt
    by_step (ok m') i ahead x v =
        let (k', later, pc, same) = execute-is_forward i m m' k ahead x a.at_index (omega arith) in
        (
          k',
          later,
          h,
          record {
            valid = v.0.0;
            at_index = pc;
            same_size = v.0.1 ∙ a.same_size;
            image = same ∙ a.image;
          },
        )
