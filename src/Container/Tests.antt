-- ===== src/Container/Tests.antt =====
-- The theorems on the containers at concrete inputs, on a kernel that can be run.
pub mod Machine
mod Transfers
mod Headers
mod Blocks
mod Waves
