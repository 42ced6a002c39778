-- ===== src/Jit/Compile.antt =====
-- `simulate` of asm/src/qrisc-llvm-sim.cpp: the two passes over the program, which find the blocks
-- and fill them. What follows, the printing and the running of the module, is LLVM's.
use llvm_mipt.Base.{
  ℕ, Bool, not, ◌&&◌, ◌||◌, Option, none, some, List, [], ◌∷◌, ◌==◌, String, if◌then◌else◌,
}
use llvm_mipt.Base.Word.{add32}
use llvm_mipt.Instr.Opcodes.{of_code}
use llvm_mipt.Instr.{Instr, reg_zero, reg_pc, r1, r2, imm, get_opcode, is_jump, is_branch}
use llvm_mipt.Sim.Exec.{jump_target}
use llvm_mipt.Jit.Builder.{
  Builder, Emission, made, ◌>>=◌, or_refuse, check, unsupported_jump, failed_assert, null_block,
}
use llvm_mipt.Jit.Emit.{emit_instr}

-- What the first pass accepts of a jump.
unfoldable pub is_supported_jump : Instr → Bool
is_supported_jump ins = not (is_jump ins && (not (r1 ins == reg_zero) || not (r2 ins == reg_pc)))

module _ (b : Builder) where
  open b use {
    Code, Value, Block, start, create_block, set_insert_point, create_br, create_cond_br,
    create_ret_void,
  }

  -- `BBJumpDest`; a missing entry and a null pointer are the same.
  abbrev pub Blocks : Type 0
  Blocks = ℕ → Option Block

  abbrev pub put_block : ℕ → Block × Code → Blocks → Blocks × Code
  put_block addr x bl = (λ a. if a == addr then some x.0 else bl a, x.1)

  abbrev pub ensure_block : String → ℕ → Option Block → Blocks → Code → Blocks × Code
  ensure_block name addr (some old) bl c = (bl, c)
  ensure_block name addr none bl c = put_block addr (create_block name c) bl

  -- `if (!BBJumpDest[addr]) BBJumpDest[addr] = BasicBlock::Create(...)`
  unfoldable pub ensure : String → ℕ → Blocks × Code → Blocks × Code
  ensure name addr s = ensure_block name addr (s.0 addr) s.0 s.1

  abbrev pub scan_target : Instr → ℕ → Blocks × Code → Emission (Blocks × Code)
  scan_target ins pc s = do
    i ← or_refuse (imm ins) failed_assert
    made (ensure "bb_cont" (add32 pc 4) (ensure "bb" (jump_target pc i) s))

  unfoldable pub scan_instr : Instr → ℕ → Blocks × Code → Emission (Blocks × Code)
  scan_instr ins pc s = do
    t ← check (is_supported_jump ins) unsupported_jump s
    if is_branch ins || is_jump ins then scan_target ins pc t else made t

  -- The first pass.
  unfoldable pub scan : List Instr → ℕ → Blocks × Code → Emission (Blocks × Code)
  scan [] pc s = made s
  scan (ins ∷ instrs) pc s = scan_instr ins pc s >>= λ t. scan instrs (add32 pc 4) t

  abbrev pub fall_through : Option Block → Code → Code
  fall_through none c = c
  fall_through (some next) c = set_insert_point next (create_br next c)

  -- The control flow of an instruction, by its `BranchCond`.
  unfoldable pub flow : Option Value → Instr → ℕ → Blocks → Code → Emission Code
  flow (some cond) ins pc bl c = do
    d ← check (is_branch ins) failed_assert c
    i ← or_refuse (imm ins) failed_assert
    true_branch ← or_refuse (bl (jump_target pc i)) null_block
    false_branch ← or_refuse (bl (add32 pc 4)) null_block
    made (set_insert_point false_branch (create_cond_br cond true_branch false_branch d))
  flow none ins pc bl c =
      if is_jump ins
      then (do
        i ← or_refuse (imm ins) failed_assert
        target ← or_refuse (bl (jump_target pc i)) null_block
        next ← or_refuse (bl (add32 pc 4)) null_block
        made (set_insert_point next (create_br target c)))
      else made (fall_through (bl (add32 pc 4)) c)

  unfoldable pub emit_one : Instr → ℕ → Blocks → Code → Emission Code
  emit_one ins pc bl c = do
    x ← emit_instr b (of_code (get_opcode ins)) ins pc c
    flow x.0 ins pc bl x.1

  -- The second pass.
  unfoldable pub emit_all : List Instr → ℕ → Blocks → Code → Emission Code
  emit_all [] pc bl c = made c
  emit_all (ins ∷ instrs) pc bl c = emit_one ins pc bl c >>= λ d. emit_all instrs (add32 pc 4) bl d

  -- The map that has only the entry, and the builder at its start.
  abbrev pub entry : Block × Code → Blocks × Code
  entry x = put_block 0 (x.0, set_insert_point x.0 x.1) (λ a. none)

  unfoldable pub compile : List Instr → Emission Code
  compile instrs = do
    s ← scan instrs 0 (entry (create_block "entry" start))
    c ← emit_all instrs 0 s.0 s.1
    made (create_ret_void c)
