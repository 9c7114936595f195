-- ===== src/Util.antt =====
-- src/co/util: containers shared by the compiler's parts.
pub mod KeyOrder
pub mod RbTree
pub mod HashMap
pub mod Array
pub mod Sym
