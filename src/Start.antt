-- ===== src/Start.antt =====
-- crates/zaphyl/src/main.rs: how the program starts.
pub mod Bound
pub mod Front
pub mod Listeners
pub mod Machine
pub mod Main
