-- ===== src/Registration/Index.antt =====
-- internal/registration/index.go: which servers offer which tools and resources. The index is
-- passed explicitly; a copy of a record is the record, and the lock and the metrics are left out.
pub mod Content
pub mod Entries
pub mod Resources
use cruvero_mcp_gateway.Prelude.{
  ℕ, not, ◌&&◌, List, [], ◌∷◌, Option, none, some, ltb, ◌==◌, if◌then◌else◌, is_empty, keep, length,
  Result, ok, err,
}
use cruvero_mcp_gateway.Prelude.Texts.{Text, text_eq, trim_space, has_prefix}
use cruvero_mcp_gateway.Prelude.Maps.{Map, lookup, insert}
use cruvero_mcp_gateway.Types.{ServerRecord, is_routable}

pub record CapabilityIndex : Type 0 where
  pub tools : Map Text (List ServerRecord)
  pub resources : Map Text (List ServerRecord)

unfoldable pub new_capability_index : CapabilityIndex
new_capability_index = record { tools = []; resources = [] }

unfoldable pub tool_count : CapabilityIndex → ℕ
tool_count i = length i.tools

unfoldable pub upsert_server : List ServerRecord → ServerRecord → List ServerRecord
upsert_server [] server = server ∷ []
upsert_server (s ∷ ss) server =
    if s.id == server.id then server ∷ ss else s ∷ upsert_server ss server

unfoldable pub remove_server : List ServerRecord → Text → List ServerRecord
remove_server servers id = keep (λ s. not (s.id == id)) servers

-- i.tools[name], with no servers for a missing name.
unfoldable pub servers_at : Text → Map Text (List ServerRecord) → List ServerRecord
servers_at key m = elim (lookup key m) [ none ↦ [] | some servers ↦ servers ]

-- One of the two loops of `addLocked`.
unfoldable pub add_names :
    List Text → ServerRecord → Map Text (List ServerRecord) → Map Text (List ServerRecord)
add_names [] server m = m
add_names (raw ∷ names) server m =
    let name = trim_space raw in
    add_names names server
      (if is_empty name then m else insert name (upsert_server (servers_at name m) server) m)

unfoldable pub add_locked : CapabilityIndex → ServerRecord → CapabilityIndex
add_locked i server = record {
  tools = add_names server.capabilities.tools server i.tools;
  resources = add_names server.capabilities.resources server i.resources;
}

unfoldable pub add : CapabilityIndex → ServerRecord → CapabilityIndex
add i server = if is_routable server.status then add_locked i server else i

-- The loop of `Rebuild`.
unfoldable pub add_all : CapabilityIndex → List ServerRecord → CapabilityIndex
add_all i [] = i
add_all i (server ∷ servers) =
    add_all (if is_routable server.status then add_locked i server else i) servers

unfoldable pub rebuild : CapabilityIndex → List ServerRecord → CapabilityIndex
rebuild i servers = add_all new_capability_index servers

-- One of the two loops of `removeLocked`: an entry with no server left is deleted.
unfoldable pub remove_names : Text → Map Text (List ServerRecord) → Map Text (List ServerRecord)
remove_names id [] = []
remove_names id ((name, servers) ∷ m) =
    let filtered = remove_server servers id in
    if is_empty filtered then remove_names id m else (name, filtered) ∷ remove_names id m

unfoldable pub remove_locked : CapabilityIndex → Text → CapabilityIndex
remove_locked i id = record {
  tools = remove_names id i.tools;
  resources = remove_names id i.resources;
}

unfoldable pub remove : CapabilityIndex → Text → CapabilityIndex
remove i id = if is_empty (trim_space id) then i else remove_locked i id

pub data RefreshError (E : Type 0) : Type 0 where
  invalid_arguments : RefreshError E
  store_error : E → RefreshError E

-- `get` is what the store answers for the server's id; a nil record is none.
unfoldable pub refresh_server :
    {E : Type 0}
    → CapabilityIndex
    → Text
    → Result E (Option ServerRecord)
    → Result (RefreshError E) CapabilityIndex
refresh_server i id get = if is_empty (trim_space id) then err invalid_arguments else elim get [
  | err e ↦ err (store_error e)
  | ok found ↦ elim found [
    | none ↦ ok (remove_locked i id)
    | some server ↦ ok (add (remove_locked i id) server)
  ]
]

unfoldable pub lookup_tool : CapabilityIndex → Text → List ServerRecord
lookup_tool i name =
    let key = trim_space name in if is_empty key then [] else servers_at key i.tools

-- One round of the loop of `LookupResource`.
unfoldable pub better : Text → Text → Text → Text
better target best key =
    if has_prefix target key && ltb (length best) (length key) then key else best

-- The loop: the longest key so far that is a prefix of the target.
unfoldable pub longest_match : Text → Text → Map Text (List ServerRecord) → Text
longest_match target best [] = best
longest_match target best ((key, servers) ∷ m) = longest_match target (better target best key) m

-- `best` is empty where no key fits. Both keys are prefixes of the target, so the one with more code
-- points has more bytes.
unfoldable pub lookup_resource : CapabilityIndex → Text → List ServerRecord
lookup_resource i prefix =
    let target = trim_space prefix in
    let best = longest_match target [] i.resources in
    if is_empty target then [] else if is_empty best then [] else servers_at best i.resources
