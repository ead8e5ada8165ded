-- ===== src/Tests.antt =====
-- Tests, and each property at a concrete input.
pub mod Toy
pub mod Fork
mod StrictFork
mod Digest
pub mod Captures
pub mod Bundles
pub mod Disk
mod Runs
mod Scenarios
mod Tools
