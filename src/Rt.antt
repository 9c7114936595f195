-- ===== src/Rt.antt =====
-- src/rt: the runtime. Modelled are parts of its scheduler: run queues, statuses of Ts, the search for work.
pub mod RunQueue
pub mod Tasks
pub mod GlobalQueue
pub mod VarBitmap
pub mod RandomOrder
pub mod StealWork
