-- ===== src/Scenario.antt =====
-- The scenario engine of src/scenario_engine: scenarios as values of Python, what their hooks match, and
-- their validation before a run.
pub mod Value
pub mod Matching
pub mod Actions
pub mod Commands
pub mod Durations
pub mod Handlers
pub mod Targets
pub mod Hooks
pub mod Firing
pub mod Validator
pub mod StatusClass
pub mod Validation
pub mod Timeline
pub mod Run
pub mod Tests
