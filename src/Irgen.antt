-- ===== src/Irgen.antt =====
-- irgen/main.cpp, which builds the game of life as a module of LLVM.
pub mod Record
pub mod Functions
pub mod Generator
pub mod Semantics
pub mod Blocks
pub mod Loops
pub mod Generated
pub mod Steps
pub mod Counting
pub mod Updating
pub mod Initialising
pub mod Drawing
pub mod Calls
pub mod Program
mod Tests
