-- ===== src/Scenarios.antt =====
-- The theorems at concrete servers, calls, tools and keys.
pub mod Registrations
pub mod Lifecycle
pub mod Registry
pub mod Breaker
pub mod Decisions
pub mod Limits
pub mod Routes
pub mod Clients
pub mod Events
