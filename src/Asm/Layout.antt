-- ===== src/Asm/Layout.antt =====
-- A program text and what the assembler makes of it: asm/src/parser.y and asm/src/Assembler.cpp.
pub mod Parts
use llvm_mipt.Base.{◌+◌, if◌then◌else◌}
use llvm_mipt.Instr.{Instr}
