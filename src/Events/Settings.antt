-- ===== src/Events/Settings.antt =====
-- internal/events/handlers.go: the settings of the backend servers, and the acknowledgements of
-- registrations.
pub mod Plain
pub mod Secrets
use cruvero_mcp_gateway.Prelude.{
  ℕ, Bool, true, false, not, ◌&&◌, ◌||◌, List, [], ◌∷◌, Option, none, some, if◌then◌else◌, is_empty,
  any, Result, ok, err, require, ◌>>=◌, ◌>>◌, map_err,
}
use cruvero_mcp_gateway.Prelude.Int.{ℤ, is_pos}
use cruvero_mcp_gateway.Prelude.Texts.{Text, text_eq, codes, trim_space, to_lower, contains_text}
use cruvero_mcp_gateway.Prelude.Maps.{Map, lookup, insert}
use cruvero_mcp_gateway.Policy.Values.{
  Value, Items, Fields, null, bool, num, str, arr, obj, nil, cons, end, field,
}
use cruvero_mcp_gateway.Registration.Settings.{
  Settings, SettingsError, clone_settings, update_effective_settings,
}
use cruvero_mcp_gateway.Registration.Service.{ServiceError, acknowledge_server_registration}
use cruvero_mcp_gateway.Registration.Store.{Table, Fault}

pub data ConfigError : Type 0 where
  empty_key secret_key bad_version missing_server missing_registration_id bad_epoch : ConfigError
  empty_settings : Text → ConfigError
  not_applied : SettingsError → ConfigError
  not_acknowledged : ServiceError → ConfigError
  not_saved : Text → ConfigError

abbrev pub forbidden : List Text
forbidden =
    codes "secret"
    ∷ codes "password"
    ∷ codes "token"
    ∷ codes "private_key"
    ∷ codes "apikey"
    ∷ codes "api_key"
    ∷ []

-- Whether a key looks like one of a secret.
unfoldable pub is_secret_key : Text → Bool
unfolding any contains_text
is_secret_key key = any (λ word. contains_text (to_lower (trim_space key)) word) forbidden

unfoldable pub check_key : Text → Result ConfigError (Unit {0})
unfolding is_secret_key
check_key key =
    require (not (is_empty (trim_space key))) empty_key
    >> require (not (is_secret_key key)) secret_key

-- `validateNonSecretSetting`; a value that JSON has is of a supported type.
unfoldable mutual
  unfolding check_key

  pub validate_setting : {N : Type 0} → Text → Value N → Result ConfigError (Unit {0})
  validate_setting key (arr xs) = check_key key >> validate_items (trim_space key) xs
  validate_setting key (obj fs) = check_key key >> validate_fields fs
  validate_setting key _ = check_key key

  pub validate_items : {N : Type 0} → Text → Items N → Result ConfigError (Unit {0})
  validate_items key nil = ok tt
  validate_items key (cons x xs) = validate_setting key x >> validate_items key xs

  pub validate_fields : {N : Type 0} → Fields N → Result ConfigError (Unit {0})
  validate_fields end = ok tt
  validate_fields (field k v fs) = validate_setting k v >> validate_fields fs

pub record ServerSettingsConfig (N : Type 0) : Type 0 where
  pub server_name : Text
  pub effective_settings : Fields N

abbrev pub has_fields : {N : Type 0} → Fields N → Bool
has_fields end = false
has_fields (field k v fs) = true

unfoldable pub build_validated_server_settings :
    {N : Type 0}
    → List (ServerSettingsConfig N)
    → Map Text (Fields N)
    → Result ConfigError (Map Text (Fields N))
unfolding validate_fields clone_settings
build_validated_server_settings [] out = ok out
build_validated_server_settings (s ∷ rest) out =
    let name = trim_space s.server_name in
    require (not (is_empty name)) missing_server
    >> require (has_fields s.effective_settings) (empty_settings name)
    >> validate_fields s.effective_settings
    >> build_validated_server_settings rest (insert name (clone_settings s.effective_settings) out)

-- The optional store of the configuration: none if it is not set, or what it answers.
abbrev pub Saving : Type 0
Saving = Option (Option Text)

abbrev pub saved : {E : Type 0} → (Text → E) → Saving → Result E (Unit {0})
saved failure (some (some e)) = err (failure e)
saved failure _ = ok tt

-- `ServerSettingsConfigHandler.Handle`: the settings after it, and its error.
unfoldable pub handle_settings :
    {N : Type 0}
    → Saving
    → Settings N
    → ℤ
    → List (ServerSettingsConfig N)
    → Settings N × Result ConfigError (Unit {0})
unfolding build_validated_server_settings update_effective_settings
handle_settings saving s version servers =
    if not (is_pos version)
    then (s, err bad_version)
    else elim (build_validated_server_settings servers []) [
      | err e ↦ (s, err e)
      | ok by_server ↦ elim (update_effective_settings s version by_server) [
        | err e ↦ (s, err (not_applied e))
        | ok t ↦ (t, saved not_saved saving)
      ]
    ]

-- `ServerRegisteredAckHandler.Handle`; the time of the message is none where it is zero.
unfoldable pub handle_ack :
    Fault → ℕ → Text → ℤ → Text → Text → Option ℕ → Table → Result ConfigError Table
unfolding acknowledge_server_registration
handle_ack f now id epoch hash version acked_at rows =
    require (not (is_empty (trim_space id))) missing_registration_id
    >> require (is_pos epoch) bad_epoch
    >> map_err not_acknowledged (
        acknowledge_server_registration f now (trim_space id) epoch (trim_space hash)
          (trim_space version) acked_at rows)
