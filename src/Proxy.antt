-- ===== src/Proxy.antt =====
-- internal/proxy: the names under which tools are offered, and the routing of a call to a server.
pub mod Namespace
pub mod Scope
pub mod Strategy
pub mod Router
