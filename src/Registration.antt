-- ===== src/Registration.antt =====
-- internal/registration: the life cycle of a backend server and the index of what it offers.
pub mod State
pub mod Index
pub mod Request
pub mod Store
pub mod Config
pub mod Settings
pub mod Service
pub mod Heartbeat
pub mod Sweeper
pub mod Subscriber
pub mod Tools
