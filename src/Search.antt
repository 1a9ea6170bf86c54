-- ===== src/Search.antt =====
-- internal/search: what the search for tools keeps between calls.
pub mod Cache
