-- ===== src/Events/Servers.antt =====
-- internal/events/handlers.go: the prefixes of SPIFFE ids that may register, the authentication
-- settings and the descriptions of tools that the platform sends.
pub mod Admission
use cruvero_mcp_gateway.Prelude.{
  Bool, true, false, not, List, [], ◌∷◌, Option, none, some, if◌then◌else◌, is_empty, Result, ok,
  err, ◌>>=◌,
}
use cruvero_mcp_gateway.Prelude.Texts.{Text, codes, trim_space, has_prefix}
use cruvero_mcp_gateway.Events.Settings.{Saving, saved}

pub data ServerConfigError : Type 0 where
  bad_prefix not_saved : Text → ServerConfigError

abbrev pub spiffe_scheme : Text
spiffe_scheme = codes "spiffe://"

abbrev pub map_ok : {A B : Type 0} → (A → B) → Result Text A → Result Text B
map_ok f (ok a) = ok (f a)
map_ok f (err e) = err e

-- The loop over the prefixes of a message; the error is the prefix that is refused.
unfoldable pub allow_list_of : List Text → Result Text (List Text)
unfolding has_prefix
allow_list_of [] = ok []
allow_list_of (raw ∷ rest) =
    let prefix = trim_space raw in
    let kept = allow_list_of rest in
    if is_empty prefix
    then kept
    else if has_prefix prefix spiffe_scheme
    then map_ok (λ prefixes. prefix ∷ prefixes) kept
    else err prefix

-- `ServerConfigHandler.Handle`: the allow list of the service after it, and the error.
unfoldable pub handle_servers :
    Saving → List Text → List Text → List Text × Result ServerConfigError (Unit {0})
unfolding allow_list_of
handle_servers saving allow_list prefixes = elim (allow_list_of prefixes) [
  | err prefix ↦ (allow_list, err (bad_prefix prefix))
  | ok prefixes' ↦ (prefixes', saved not_saved saving)
]

-- `AuthConfigHandler.Handle` changes nothing but the store.
unfoldable pub handle_auth : Saving → Result ServerConfigError (Unit {0})
handle_auth saving = saved not_saved saving

-- The handler of tool metadata: whether it has a callback, and the last message.
pub record ToolMetadataHandler (M : Type 0) : Type 0 where
  pub has_callback : Bool
  pub last_message : Option M

module _ {M : Type 0} where
  -- `SetOnUpdate`, and the message that the new callback is called with.
  unfoldable pub set_on_update : ToolMetadataHandler M → Bool → ToolMetadataHandler M × Option M
  set_on_update h has_callback =
      (record h { has_callback = has_callback }, if has_callback then h.last_message else none)

  -- `ToolMetadataConfigHandler.Handle`, and the message that the callback is called with. A store
  -- that fails is only logged.
  unfoldable pub handle_metadata :
      Saving → ToolMetadataHandler M → M → ToolMetadataHandler M × Option M
  handle_metadata saving h message =
      (record h { last_message = some message }, if h.has_callback then some message else none)
