-- ===== src/Mercy/Codegen.antt =====
-- mercy/src/Codegen.cpp: the code of expressions. LLVM's builder is a parameter, the record `Llvm`.
pub mod Api
pub mod Tree
pub mod Types
pub mod Values
pub mod Calls
pub mod Emit
pub mod Functions
pub mod Documented
pub mod Typing
pub mod Table
pub mod Operands
pub mod Typed
pub mod FunctionTyping
pub mod Addresses
pub mod Bodies
pub mod Instances
mod Tests
