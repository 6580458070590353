-- ===== src/Tests.antt =====
-- The properties at concrete inputs.
pub mod Addresses
pub mod Config
pub mod Peers
pub mod Sessions
pub mod Logins
pub mod Filters
pub mod Tokens
pub mod Passwords
pub mod PeerIds
pub mod Sweeps
pub mod Rotations
pub mod Accounts
