-- ===== src/Sim.antt =====
-- asm/src/qrisc-sim.cpp, the qrisc interpreter, and the part of life_game/sim that it calls.
pub mod State
pub mod Device
pub mod Exec
pub mod Run
pub mod Invariant
pub mod Memory
pub mod Load
pub mod Isa
pub mod Link
pub mod Arith
pub mod Branch
pub mod Forward
pub mod Rounds
pub mod Halts
mod Tests
