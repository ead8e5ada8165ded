-- ===== src/Auto.antt =====
-- src/auto.rs: the runner of repeatable scenarios, and the scenario's view of its fork.
pub mod Names
pub mod Settings
pub mod Runner
pub mod Scenario
pub mod Preview
