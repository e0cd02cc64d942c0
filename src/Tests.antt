-- ===== src/Tests.antt =====
-- Runs of the model on small inputs.
pub mod Tree
pub mod Examples
pub mod Bytes
pub mod Batch
pub mod Log
pub mod Lost
pub mod Lock
pub mod Nodes
pub mod TooLarge
