-- ===== src/Lib.antt =====
-- The MCP gateway: the parts of its Go code that decide which servers are registered and
-- routable, which tool calls are let through, how often, and when a failing server is left
-- alone.
--
-- Parts and files. Prelude holds the shared helpers: Boolean tests and the equality interface,
-- lists, results, integers, texts and association lists. Types holds the data that the parts
-- exchange (internal/types/types.go). Identity holds who a caller is and which SPIFFE ids may
-- register (internal/identity/context.go and spiffe.go, internal/auth/rbac.go). Registration
-- holds the state machine of a registration (State, internal/registration/state.go) and the
-- capability index that the proxy routes by (Index, internal/registration/index.go). Of the
-- same directory, Registration/Request is types.go, Service, Config, Settings and Tools are
-- service.go, Heartbeat is heartbeat.go and refresh.go, Sweeper is sweeper.go, and Subscriber
-- is subscriber.go and refresh_handler.go; Registration/Store is
-- internal/store/server_store.go, with its children Overdue, for the servers not heard of, and
-- Rows, the table as a map from ids to rows. The service, the heartbeats and the sweeper share
-- the table, and they and the subscriber the index. Policy holds the engine that judges a tool
-- call (Engine, internal/policy/engine.go) and what it calls: Classification, Cache, Dangerous,
-- Schema and Audit, each for the file of internal/policy with that name (Cache is
-- classification_cache.go; Values is types.go). Policy/Middleware is what asks the engine
-- (middleware.go); Identity/Callers says who a caller counts as, and which profile it names,
-- without the code that finds it out. RateLimit holds the keys, the limiter store (store.go)
-- and the memory backend (memory_backend.go) of internal/ratelimit, and Middleware what asks
-- the backend (middleware.go and resolver.go). Proxy holds the routing of a call: Namespace and
-- Router (internal/proxy/namespace.go and router.go), Strategy with its child Affinity (round
-- robin, and internal/proxy/session_affinity.go), and Scope (internal/auth/server_scope.go). It
-- uses the index of Registration and takes the strategy as an interface with its law.
-- Resilience holds the circuit breaker the retry loop and the client that puts one around the
-- other (Circuit, Retry, Client and Registry of internal/resilience). Search/Cache is
-- internal/search/embedding_cache.go. Events is internal/events/handlers.go: Settings has the
-- settings of the backend servers, which it hands to Registration/Settings, Policies the
-- profiles, which it hands to the engine and to the memory backend, and Servers the prefixes of
-- the ids that may register, which Identity tests; Degradation is degradation.go of the same
-- directory. Scenarios holds concrete runs.
--
-- Correspondence. A Go function `AddLocked` is `add_locked`; a method takes its receiver and
-- returns the new one. A Go map is an association list, read by `lookup`, where a missing key
-- is written out; the order in which a `range` loop meets the entries is the order of the list,
-- and it is arbitrary. A pointer that may be nil is an option. A string is the list of its code
-- points. Times are nanoseconds and the clock is an argument. Locks are left out where an
-- operation holds its lock from beginning to end; where the breaker runs a call without it,
-- Resilience/Circuit/Interleaving has the steps that other calls can come between.
--
-- Parameters. The rates, which are float64, and golang.org/x/time/rate are a record with the
-- one law that the sign of a converted integer is kept. hash/fnv is a function from texts to
-- numbers. Package regexp's patterns are a predicate on texts, encoding/json is a function from
-- a text to its fields or an error, and the stores are functions from names to answers. The
-- table of servers is a list of rows, and a statement is a function on it; the clock of the
-- database, the ids that it and newUUID make and the fault that a statement meets are
-- arguments, so a theorem that asks for no fault says so. What is published, broadcast and
-- audited is a list of effects. Addresses of package net, net/url and the hash of the
-- capabilities are parameters. There is no fuel: every loop is structural.
--
-- Not modelled: SQL but for the statements on servers and the two that a registration makes on
-- classifications, NATS and Dragonfly, HTTP and JSON-RPC serving, the proxy's catalogue and
-- clients, the HTTP handler of registrations, the pool of clients, authentication but for the
-- scopes, administration, search but for the cache of embeddings, the command line, metrics and
-- traces.
pub mod Prelude
pub mod Types
pub mod Identity
pub mod Registration
pub mod Resilience
pub mod Policy
pub mod RateLimit
pub mod Proxy
pub mod Scenarios
pub mod Events
pub mod Search
