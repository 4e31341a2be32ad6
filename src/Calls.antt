-- ===== src/Calls.antt =====
-- `CallManager` of src/call_manager.py.
pub mod Lookup
pub mod AutoCapture
pub mod Lifecycle
pub mod Operations
pub mod Media
pub mod Tables
pub mod Tracked
pub mod Keeping
pub mod Events
pub mod Clients
pub mod MediaClients
pub mod Isolation
pub mod HangUp
pub mod Endings
pub mod Captures
pub mod Answers
pub mod Outcomes
pub mod Tests
