-- ===== src/Ir.antt =====
-- src/co/ir: the intermediate representation.
pub mod Bits
pub mod ConstCache
pub mod Graph
pub mod Builder
