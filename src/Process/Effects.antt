-- ===== src/Process/Effects.antt =====
-- What the moderation events of process_event.go change, and what they leave alone.
pub mod Counts
pub mod Deletion
pub mod Unlinking
