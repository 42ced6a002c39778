-- ===== src/Mercy.antt =====
-- mercy/src, the compiler of the Mercy language: types, syntax trees and semantic analysis.
pub mod Types
pub mod Ast
pub mod Sema
pub mod Codegen
mod Tests
