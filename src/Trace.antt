-- ===== src/Trace.antt =====
-- trace/TraceGenPass.cpp, a pass that adds calls of `puts` to a function.
mod Text
mod Pass
pub mod Lines
pub mod Traced
pub mod Exits
pub mod Proper
pub mod Whole
mod Tests
pub use Pass.*
