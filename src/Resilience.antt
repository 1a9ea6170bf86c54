-- ===== src/Resilience.antt =====
-- internal/resilience: calls to a backend behind retries and a circuit breaker.
pub mod Circuit
pub mod Retry
pub mod Client
pub mod Registry
