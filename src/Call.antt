-- ===== src/Call.antt =====
-- `SipCall` of src/call_manager.py: one call leg with its recorder and its player.
pub mod Data
pub mod Audio
pub mod Offer
pub mod Playback
pub mod Callbacks
pub mod Consistency
pub mod Sidecars
pub mod Life
pub mod Tests
pub mod Identity
