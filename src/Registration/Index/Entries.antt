-- ===== src/Registration/Index/Entries.antt =====
-- The servers of one entry, found by their ids, and the entries found by their keys.
use cruvero_mcp_gateway.Prelude.{
  ◌≡◌, refl, Bool, false, ◌&&◌, List, [], ◌∷◌, none, some, Option, arith, ◌==◌, if◌then◌else◌,
  is_empty, keep, any, eq_iff,
}
use cruvero_mcp_gateway.Prelude.Texts.{Text, text_eq, trim_space}
use cruvero_mcp_gateway.Prelude.Maps.{Map, lookup, insert, lookup-insert}
use cruvero_mcp_gateway.Types.{ServerRecord}
use cruvero_mcp_gateway.Registration.Index.{
  upsert_server, remove_server, servers_at, add_names, remove_names,
}

-- The server of an entry with the given id.
unfoldable pub find : Text → List ServerRecord → Option ServerRecord
find id [] = none
find id (s ∷ ss) = if s.id == id then some s else find id ss

pub find-upsert_server :
    (id : Text) (ss : List ServerRecord) (s : ServerRecord)
    → find id (upsert_server ss s) ≡ (if s.id == id then some s else find id ss)
unfolding find upsert_server
find-upsert_server id [] s = refl
find-upsert_server id (x ∷ xs) s =
    ground (arith, eq_iff x.id s.id, eq_iff s.id id, eq_iff x.id id, find-upsert_server id xs s)

pub find-remove_server :
    (id gone : Text) (ss : List ServerRecord)
    → find id (remove_server ss gone) ≡ (if gone == id then none else find id ss)
unfolding find remove_server keep
find-remove_server id gone [] = ground arith
find-remove_server id gone (x ∷ xs) =
    ground (arith, eq_iff x.id gone, eq_iff gone id, eq_iff x.id id, find-remove_server id gone xs)

-- Whether a list of raw names has the given name, which is not blank.
unfoldable pub listed : List Text → Text → Bool
listed names name = any (λ raw. trim_space raw == name) names

servers_at-insert :
    (name key : Text) (ss : List ServerRecord) (m : Map Text (List ServerRecord))
    → servers_at key (insert name ss m) ≡ (if name == key then ss else servers_at key m)
unfolding servers_at
servers_at-insert name key ss m = ground (arith, lookup-insert name key ss m)

pub find-add_names :
    (id key : Text) (names : List Text) (s : ServerRecord) (m : Map Text (List ServerRecord))
    → is_empty key ≡ false
    → find id (servers_at key (add_names names s m))
      ≡ (if listed names key && s.id == id then some s else find id (servers_at key m))
unfolding add_names listed any
find-add_names id key [] s m h = refl
find-add_names id key (raw ∷ names) s m h = ground (
  arith,
  eq_iff (trim_space raw) key,
  eq_iff s.id id,
  find-upsert_server id (servers_at (trim_space raw) m) s,
  servers_at-insert (trim_space raw) key (upsert_server (servers_at (trim_space raw) m) s) m,
  find-add_names id key names s m h,
  find-add_names id key names s
      (insert (trim_space raw) (upsert_server (servers_at (trim_space raw) m) s) m) h,
)

-- The keys of a Go map are distinct.
abbrev pub Distinct : Map Text (List ServerRecord) → Type 0
Distinct [] = Unit
Distinct ((k, v) ∷ m) = (lookup k m ≡ none) × Distinct m

pub lookup-remove_names :
    (id key : Text) (m : Map Text (List ServerRecord))
    → lookup key m ≡ none
    → lookup key (remove_names id m) ≡ none
unfolding lookup remove_names
lookup-remove_names id key [] h = refl
lookup-remove_names id key ((k, v) ∷ m) h = ground (arith, lookup-remove_names id key m)

pub servers_at-remove_names :
    (id key : Text) (m : Map Text (List ServerRecord))
    → Distinct m
    → servers_at key (remove_names id m) ≡ remove_server (servers_at key m) id
unfolding servers_at remove_names lookup remove_server keep
servers_at-remove_names id key [] d = refl
servers_at-remove_names id key ((k, v) ∷ m) d =
    ground
      (arith, eq_iff k key, servers_at-remove_names id key m d.1, lookup-remove_names id k m d.0)
