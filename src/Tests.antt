-- ===== src/Tests.antt =====
-- The theorems at work: a small nostr library, event store, cache and relay, and each theorem applied
-- to them.
mod World
mod Gate
mod Conns
mod Roles
mod Reading
mod Writing
mod Processing
mod Loading
mod Wiping
mod Config
mod Calls
mod Relays
