-- ===== src/Registration/Index/Content.antt =====
-- What a caller finds in the index after each operation, and what holds of all its entries.
pub mod Invariant
pub mod Lookups
use cruvero_mcp_gateway.Prelude.{
  ◌≡◌, refl, Bool, true, false, ◌&&◌, List, [], ◌∷◌, none, some, Option, arith, ◌==◌, if◌then◌else◌,
  keep, is_empty, Bool-cases, inl, inr, eq_iff, eq_self, Result, ok, err,
}
use cruvero_mcp_gateway.Prelude.Texts.{Text, text_eq, trim_space}
use cruvero_mcp_gateway.Prelude.Maps.{lookup}
use cruvero_mcp_gateway.Types.{ServerRecord, is_routable}
use cruvero_mcp_gateway.Registration.Index.{
  CapabilityIndex, new_capability_index, remove_server, servers_at, add_names, add_locked, add,
  add_all, rebuild, remove_names, remove_locked, remove, refresh_server, lookup_tool, lookup,
}
use cruvero_mcp_gateway.Registration.Index.Entries.{
  find, listed, Distinct, find-remove_server, find-add_names, servers_at-remove_names,
}

-- The server with an id among those that offer a tool.
unfoldable pub offered : CapabilityIndex → Text → Text → Option ServerRecord
offered i name id = find id (lookup_tool i name)

-- Whether a record is routable and lists a tool, by the trimmed name.
unfoldable pub offers : ServerRecord → Text → Bool
offers s name =
    is_routable s.status
    && (if is_empty (trim_space name) then false else listed s.capabilities.tools (trim_space name))

-- After `Add` a lookup finds the new record under each tool that it lists, if it is routable, in
-- the place of an older record with its id, and finds all other servers as before; so the tools
-- that an older record with its id listed and the new one does not are still found with the older.
offered-add :
    (i : CapabilityIndex) (s : ServerRecord) (name id : Text)
    → offered (add i s) name id
      ≡ (if offers s name && s.id == id then some s else offered i name id)
unfolding offered add add_locked lookup_tool find offers
offered-add i s name id =
    ground
      (arith, eq_iff s.id id, find-add_names id (trim_space name) s.capabilities.tools s i.tools)

-- In an index where no tool has two entries, after `Remove` a lookup finds the servers that it
-- found before, less the removed one; a blank id removes nothing.
lookup_tool-remove :
    (i : CapabilityIndex) (id name : Text)
    → Distinct i.tools
    → lookup_tool (remove i id) name ≡ (
        if is_empty (trim_space id)
        then lookup_tool i name
        else remove_server (lookup_tool i name) id)
unfolding remove remove_locked lookup_tool remove_server keep
lookup_tool-remove i id name d =
    ground (arith, servers_at-remove_names id (trim_space name) i.tools d)

offered-remove_locked :
    (i : CapabilityIndex) (gone name id : Text)
    → Distinct i.tools
    → offered (remove_locked i gone) name id ≡ (if gone == id then none else offered i name id)
unfolding offered remove_locked lookup_tool find
offered-remove_locked i gone name id d = ground (
  arith,
  eq_iff gone id,
  servers_at-remove_names gone (trim_space name) i.tools d,
  find-remove_server id gone (servers_at (trim_space name) i.tools),
)

-- What `RefreshServer` leaves of one server: the stored record, under the tools that it offers.
abbrev pub refreshed : Option ServerRecord → Text → Option ServerRecord
refreshed none name = none
refreshed (some s) name = if offers s name then some s else none

abbrev pub IsRecordOf : Text → Option ServerRecord → Type 0
IsRecordOf id none = Unit
IsRecordOf id (some s) = s.id ≡ id

-- In an index where no tool has two entries, and with a store whose record has the id asked for, a
-- successful `RefreshServer` leaves no trace of what the index held of the server before: it is
-- found exactly under the tools that the record in the store offers, with that record, and every
-- other server is found as before.
pub offered-refresh_server :
    {E : Type 0} (i j : CapabilityIndex) (gone name id : Text) (found : Option ServerRecord)
    → Distinct i.tools
    → IsRecordOf gone found
    → refresh_server {E = E} i gone (ok found) ≡ ok j
    → offered j name id ≡ (if gone == id then refreshed found name else offered i name id)
unfolding refresh_server
offered-refresh_server i j gone name id none d r e =
    ground (arith, offered-remove_locked i gone name id d)
offered-refresh_server i j gone name id (some s) d r e = ground (
  arith,
  eq_iff s.id id,
  eq_iff gone id,
  offered-remove_locked i gone name id d,
  offered-add (remove_locked i gone) s name id,
)

-- The last record of a snapshot with an id that offers a tool, if there is one.
unfoldable pub last_offer :
    List ServerRecord → Text → Text → Option ServerRecord → Option ServerRecord
last_offer [] name id best = best
last_offer (s ∷ ss) name id best =
    last_offer ss name id (if offers s name && s.id == id then some s else best)

add_if :
    (i : CapabilityIndex) (s : ServerRecord)
    → add i s ≡ (if is_routable s.status then add_locked i s else i)
unfolding add
add_if i s = refl

offered-add_all :
    (i : CapabilityIndex) (ss : List ServerRecord) (name id : Text)
    → offered (add_all i ss) name id ≡ last_offer ss name id (offered i name id)
unfolding add_all last_offer
offered-add_all i [] name id = refl
offered-add_all i (s ∷ ss) name id =
    rw (← add_if i s, offered-add_all (add i s) ss name id, offered-add i s name id) refl

offered-new : (name id : Text) → offered new_capability_index name id ≡ none
unfolding offered lookup_tool servers_at find new_capability_index lookup
offered-new name id = ground arith

-- `Rebuild` forgets the old index: a lookup finds the last record of the snapshot that has the id
-- and offers the tool, and nothing else.
pub offered-rebuild :
    (i : CapabilityIndex) (ss : List ServerRecord) (name id : Text)
    → offered (rebuild i ss) name id ≡ last_offer ss name id none
unfolding rebuild
offered-rebuild i ss name id =
    rw (offered-add_all new_capability_index ss name id, offered-new name id)
