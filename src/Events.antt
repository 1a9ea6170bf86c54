-- ===== src/Events.antt =====
-- internal/events: what the gateway does with the configuration that the platform sends. Messages
-- are decoded already; one that does not decode changes nothing.
pub mod Settings
pub mod Policies
pub mod Servers
pub mod Degradation
