-- ===== src/Jit.antt =====
-- asm/src/qrisc-llvm-sim.cpp, the simulator that compiles a program with LLVM. LLVM's builder is a
-- parameter, `Builder`: the translation is written against its operations. The operands of a call
-- are built from left to right, an order that C++ leaves open; the loads that they stand for do not
-- disturb each other.
pub mod Builder
pub mod Devices
pub mod Emit
pub mod Compile
pub mod Support
pub mod Blocks
pub mod Translated
pub mod Accepts
pub mod AtPc
pub mod Semantics
pub mod Straight
pub mod Steps
pub mod Program
pub mod Whole
mod Tests
