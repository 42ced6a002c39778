-- ===== src/Mercy/Sema.antt =====
-- mercy/src/Sema.cpp: the semantic analysis of Mercy. `State` is the state of the class `Sema`,
-- `Operators` and `Calls` the checks of one node, `Analysis` the walk over the tree with the
-- instances of functions.
pub mod State
pub mod Operators
pub mod Calls
pub mod Analysis
pub mod Instances
pub mod Typing
pub mod Lookup
pub mod Scoping
pub mod Global
