-- ===== src/Sim/Run.antt =====
-- `Simulator::run` of asm/src/qrisc-sim.cpp: loading the program, one round of the loop, and the
-- loop on fuel. Each round of the loop takes one unit.
use llvm_mipt.Base.{
  ℕ, zero, suc, ◌*◌, ◌/◌, ◌%◌, true, false, none, some, List, [], ◌==◌, ltb, leb, if◌then◌else◌,
  length, get_elem?,
}
use llvm_mipt.Instr.Opcodes.{of_code}
use llvm_mipt.Instr.{Instr, get_opcode, reg_sp, reg_bp, reg_pc}
use llvm_mipt.Sim.State.{
  Machine, Outcome, ok, stop, Stop, ◌>>=◌, trap, illegal_opcode, illegal_jump, memory_too_small,
  update, get_pc, read_uint_from_memory, byte_of,
}
use llvm_mipt.Sim.Exec.{exec}

-- The check of `NextPC` and the write of the program counter.
unfoldable pub set_pc : Machine → ℕ → Outcome Machine
set_pc m next_pc =
    if leb m.mem_size next_pc
    then stop (trap (illegal_jump next_pc))
    else ok (record m { reg = update m.reg reg_pc next_pc })

unfoldable pub execute : Instr → Machine → Outcome Machine
execute ins m = elim (of_code (get_opcode ins)) [
  | none ↦ stop (trap (illegal_opcode (get_opcode ins)))
  | some o ↦ exec o (get_pc m) ins m >>= λ r. set_pc r.0 r.1
]

-- The body of the `while` loop.
unfoldable pub step : Machine → Outcome Machine
step m = read_uint_from_memory (get_pc m) m >>= λ w. execute (record { encoding = w }) m

pub data RunResult : Type 0 where
  halted : Machine → RunResult
  stopped : Machine → Stop → RunResult
  out_of_fuel : Machine → RunResult

unfoldable pub run_loop : ℕ → ℕ → Machine → RunResult
run_loop zero binary_size m = out_of_fuel m
run_loop (suc fuel) binary_size m = elim (get_pc m == binary_size) [
  | true ↦ halted m
  | false ↦ elim (step m) [ ok m' ↦ run_loop fuel binary_size m' | stop e ↦ stopped m e ]
]

abbrev pub binary_size : List Instr → ℕ
binary_size instrs = length instrs * 4

-- Byte `k` of the memory after `resize` and `memcpy`.
unfoldable pub image_byte : List Instr → ℕ → ℕ
image_byte instrs k = elim (get_elem? instrs (k / 4)) [
  | none ↦ 0
  | some i ↦ byte_of i.encoding (k % 4)
]

unfoldable pub load : ℕ → ℕ → List ℕ → ℕ → List Instr → Outcome Machine
load memory_size stack_addr input seed instrs =
    if ltb memory_size (binary_size instrs)
    then stop (trap memory_too_small)
    else ok (record {
      reg = update (update (λ k. 0) reg_sp stack_addr) reg_bp stack_addr;
      byte = image_byte instrs;
      mem_size = memory_size;
      pixel_color = 0xffffffff;
      pixel_shape = 32;
      input = input;
      seed = seed;
      events = [];
    })

unfoldable pub run : ℕ → ℕ → ℕ → List ℕ → ℕ → List Instr → Outcome RunResult
run fuel memory_size stack_addr input seed instrs =
    load memory_size stack_addr input seed instrs >>= λ m. ok (run_loop fuel (binary_size instrs) m)
