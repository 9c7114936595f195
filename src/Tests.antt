-- ===== src/Tests.antt =====
-- Runs of the models at small inputs.
mod Util
mod Delete
mod Store
mod Pos
mod Parse
mod Rt
mod Ir
mod Tasks
mod Scope
mod Builder
