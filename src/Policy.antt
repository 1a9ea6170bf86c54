-- ===== src/Policy.antt =====
-- internal/policy: which tool calls a client may make.
pub mod Values
pub mod Classification
pub mod Cache
pub mod Audit
pub mod Dangerous
pub mod Schema
pub mod Engine
pub mod Middleware
