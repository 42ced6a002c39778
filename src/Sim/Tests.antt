-- ===== src/Sim/Tests.antt =====
-- The interpreter on the two-instruction loop `addi t0, t0, 1`, `blt t0, t1, loop`.
use llvm_mipt.Base.{
  ◌⊎◌, ◌+◌, ◌≤◌, ℕ, ◌*◌, ◌≡◌, ◌↔◌, refl, some, List, [], ◌∷◌, String, true, arith, bit_or,
}
use llvm_mipt.Base.Word.{add32, shl32}
use llvm_mipt.Instr.Opcodes.{
  Opcode, op_blt, op_load, op_store, op_lui, code, of_code, get_instr_type,
}
use llvm_mipt.Instr.{
  Instr, r1, r2, imm, get_type, get_opcode, make_i_instr, is_jump, is_branch, sign_extend,
}
use llvm_mipt.Asm.{UnresolvedLabel, find_label, label_imm}
use llvm_mipt.Asm.Finalize.{Patched}
use llvm_mipt.Sim.State.{
  Machine, ok, update, read_uint_from_memory, write_uint_to_memory, write_reg,
}
use llvm_mipt.Sim.Exec.{exec, i_op, branch, jump_target, advance}
use llvm_mipt.Sim.Run.{
  step, execute, set_pc, run, run_loop, load, image_byte, RunResult, halted, binary_size,
}
use llvm_mipt.Sim.Invariant.{Ends, step-Safe}
use llvm_mipt.Sim.Invariant.Parts.{Safe}
use llvm_mipt.Sim.Invariant.Steps.{Advances}
use llvm_mipt.Sim.Memory.{write_uint_to_memory_lem}
use llvm_mipt.Sim.Load.{initial, initial-IsValid, run-Ends, fetch-initial}
use llvm_mipt.Sim.Isa.Steps.{Frame}
use llvm_mipt.Sim.Isa.{execute-Frame}
use llvm_mipt.Sim.Arith.{lui_doc, exec-lui}
use llvm_mipt.Sim.Link.{address-Patched}
use llvm_mipt.Sim.Forward.{is_forward}
use llvm_mipt.Sim.Rounds.{AllForward}
use llvm_mipt.Sim.Halts.{is_over, run-AllForward}
use llvm_mipt.Sim.Branch.{moved, step-Patched}

abbrev before : List Instr
before = record { encoding = 0x098c0001 } ∷ record { encoding = 0xb18d0000 } ∷ []

abbrev program : List Instr
program = record { encoding = 0x098c0001 } ∷ record { encoding = 0xb18dffff } ∷ []

abbrev user : UnresolvedLabel
user = record { label = "loop"; instr_idx = 1 }

abbrev labels : List (String × ℕ)
labels = ("loop", 0) ∷ []

patched : Patched labels before program user
unfolding find_label make_i_instr get_instr_type of_code get_opcode get_type r1 r2 imm sign_extend
    label_imm is_jump is_branch code
patched = record {
  user = record { encoding = 0xb18d0000 };
  target = 0;
  patch = record { encoding = 0xb18dffff };
  before = refl;
  defined = refl;
  after = refl;
  same_opcode = refl;
  same_r1 = refl;
  same_r2 = refl;
  new_imm = refl;
  made = refl;
}

abbrev start : Machine
start = initial 64 32 [] 1 program

-- At the branch, with t0 = 1 and t1 = 2.
abbrev at_branch : Machine
at_branch = record start { reg = update (update (update start.reg 12 1) 13 2) 31 4 }

run_ends_by_itself : (m : Machine) × (run 3 64 32 [] 1 program ≡ ok (halted m)) × (m.reg 12 ≡ 1)
unfolding run load run_loop step execute exec i_op branch set_pc write_reg read_uint_from_memory
    image_byte of_code get_opcode get_type get_instr_type r1 r2 imm sign_extend jump_target
run_ends_by_itself = (_, refl, refl)

run-Ends_example :
    (r : RunResult) × (run 5 64 32 [] 1 program ≡ ok r) × Ends 64 (binary_size program) r
run-Ends_example =
    run-Ends 5 64 32 [] 1 program (omega arith) (omega arith) (omega arith) (omega arith)

step-Safe_example : Safe (Advances start) (step start)
step-Safe_example =
    step-Safe start (initial-IsValid 64 32 [] 1 program (omega arith) (omega arith) (omega arith))

fetch-initial_example : read_uint_from_memory 4 start ≡ ok 0xb18dffff
fetch-initial_example =
    fetch-initial 64 32 [] 1 program 1 (record { encoding = 0xb18dffff }) (omega arith) refl
      (omega arith)

is_a_branch : is_branch patched.user ≡ true
unfolding is_branch get_opcode code patched
is_a_branch = refl

step-Patched_example : step at_branch ≡ ok (moved at_branch 0)
unfolding patched get_opcode of_code r1 r2 read_uint_from_memory image_byte
step-Patched_example =
    step-Patched labels before program user patched at_branch op_blt is_a_branch (omega arith)
      (omega arith) (omega arith) (omega arith) refl refl refl refl (omega arith)

-- `addi t0, rpc, data` before two words of data.
abbrev data_before : List Instr
data_before =
    record { encoding = 0x099f0000 } ∷ record { encoding = 0 } ∷ record { encoding = 7 } ∷ []

abbrev data_after : List Instr
data_after =
    record { encoding = 0x099f0008 } ∷ record { encoding = 0 } ∷ record { encoding = 7 } ∷ []

abbrev data_user : UnresolvedLabel
data_user = record { label = "data"; instr_idx = 0 }

data_patched : Patched (("data", 2) ∷ []) data_before data_after data_user
unfolding find_label make_i_instr get_instr_type of_code get_opcode get_type r1 r2 imm sign_extend
    label_imm is_jump is_branch code
data_patched = record {
  user = record { encoding = 0x099f0000 };
  target = 2;
  patch = record { encoding = 0x099f0008 };
  before = refl;
  defined = refl;
  after = refl;
  same_opcode = refl;
  same_r1 = refl;
  same_r2 = refl;
  new_imm = refl;
  made = refl;
}

address-Patched_example :
    (v : ℕ) × (imm data_patched.patch ≡ some v) × (add32 0 v ≡ data_patched.target * 4)
unfolding data_patched is_jump is_branch get_opcode get_type get_instr_type of_code code
address-Patched_example =
    address-Patched (("data", 2) ∷ []) data_before data_after data_user data_patched refl refl
      (omega arith) (omega arith) (omega arith) (omega arith)

write_uint_to_memory_lem_example :
    (m' : Machine) × (write_uint_to_memory 13 0x01020304 start ≡ ok m')
    × (read_uint_from_memory 13 m' ≡ ok 0x01020304)
    × ((other : ℕ)
        → (other + 4 ≤ 13) ⊎ (13 + 4 ≤ other)
        → read_uint_from_memory other m' ≡ read_uint_from_memory other start)
    × (m'.reg ≡ start.reg)
    × (m'.mem_size ≡ start.mem_size)
    × (m'.events ≡ start.events)
write_uint_to_memory_lem_example =
    write_uint_to_memory_lem 13 0x01020304 start (omega arith) (omega arith)

abbrev after_addi : Machine
after_addi = moved (record start { reg = update start.reg 12 1 }) 4

execute_addi : execute (record { encoding = 0x098c0001 }) start ≡ ok after_addi
unfolding execute exec i_op set_pc write_reg of_code get_opcode get_type get_instr_type r1 r2 imm
    sign_extend
execute_addi = refl

execute-Frame_example :
    (o : Opcode) × (of_code (get_opcode (record { encoding = 0x098c0001 })) ≡ some o)
    × Frame (r1 (record { encoding = 0x098c0001 })) (o ≡ op_store) (o ≡ op_load) start after_addi
execute-Frame_example =
    execute-Frame (record { encoding = 0x098c0001 }) start after_addi execute_addi

-- `lui r3, r29, 0x1234`
exec-lui_example :
    (exec op_lui 0 (record { encoding = 0x547d1234 }) start
      ≡ advance 0 (write_reg 3 0x12340020 start))
    × ((bit_or 32 (shl32 0x1234 16) ≡ lui_doc 32 0x1234) ↔ (bit_or 0 0x1234 ≡ 0x1234))
unfolding r2 r1 imm get_opcode get_type get_instr_type of_code
exec-lui_example = exec-lui 0 0x1234 (record { encoding = 0x547d1234 }) start refl (omega arith)

-- `addi`, a `blt` over the next instruction, and two more `addi`.
abbrev forward_program : List Instr
forward_program =
    record { encoding = 0x098c0001 }
    ∷ record { encoding = 0xb18d0002 }
    ∷ record { encoding = 0x098c0001 }
    ∷ record { encoding = 0x098c0001 }
    ∷ []

forward_program-AllForward : AllForward forward_program
unfolding is_forward is_jump is_branch get_opcode imm get_type get_instr_type of_code code
    sign_extend
forward_program-AllForward =
    (omega arith, refl, (omega arith, refl, (omega arith, refl, (omega arith, refl, tt))))

run-AllForward_example :
    (r : RunResult) × (run 5 64 32 [] 1 forward_program ≡ ok r) × (is_over r ≡ true)
run-AllForward_example =
    run-AllForward 5 64 32 [] 1 forward_program forward_program-AllForward (omega arith)
      (omega arith) (omega arith) (omega arith) (omega arith) (omega arith)
