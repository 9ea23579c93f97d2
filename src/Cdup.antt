-- ===== src/Cdup.antt =====
-- The clone detector: cdup/src.
pub mod Ir
mod Examples
pub mod Json
pub mod Expr
pub mod Clones
pub mod Vm
pub mod Slots
pub mod Rows
pub mod Matrix
pub mod Nodes
pub mod Dag
