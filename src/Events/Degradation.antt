-- ===== src/Events/Degradation.antt =====
-- internal/events/degradation.go: how the gateway stands to the platform. Loading the cached
-- configuration holds the lock only where it changes the state.
pub mod Status
use cruvero_mcp_gateway.Prelude.{
  Bool, true, false, List, [], ◌∷◌, Option, none, some, if◌then◌else◌, not, ◌&&◌, is_empty, ◌==◌,
  Result, ok, err, ◌>>=◌,
}
use cruvero_mcp_gateway.Prelude.Int.{ℤ, pos, is_pos}
use cruvero_mcp_gateway.Prelude.Texts.{Text, text_eq, codes}
use cruvero_mcp_gateway.Prelude.Maps.{Map, insert}

pub data DegradationStatus : Type 0 where
  connected degraded disconnected : DegradationStatus

pub record DegradationManager : Type 0 where
  pub status : DegradationStatus
  pub ever_connected : Bool
  pub has_cached_config : Bool
  pub last_known_versions : Map Text ℤ
  pub settings_sync_status : Text
  pub settings_config_version : ℤ

-- `is_connected` is what the client answers, and false where there is none.
unfoldable pub new_degradation_manager : Bool → DegradationManager
new_degradation_manager is_connected = record {
  status = if is_connected then connected else disconnected;
  ever_connected = is_connected;
  has_cached_config = false;
  last_known_versions = [];
  settings_sync_status = codes "unknown";
  settings_config_version = pos 0;
}

unfoldable pub on_disconnect : DegradationManager → DegradationManager
on_disconnect m = record m { status = degraded }

-- With the versions of the snapshot request, if one is sent.
unfoldable pub on_reconnect : Bool → DegradationManager → DegradationManager × Option (Map Text ℤ)
on_reconnect is_connected m = (
  record m {
    status = connected;
    ever_connected = true;
    settings_sync_status = codes "resync_requested";
  },
  if is_connected then some m.last_known_versions else none,
)

-- What the store of configurations has: its keys, and under a key the version of the payload, none
-- if that is no message. `refusal` is the error of the subscriber that applies the payloads.
pub record ConfigCache : Type 0 where
  pub keys : Result Text (List Text)
  pub load : Text → Result Text (Option ℤ)
  pub refusal : Option Text

abbrev pub server_settings_key : Text
server_settings_key = codes "config.server_settings"

unfoldable pub extract_config_version : Text → Option ℤ → ℤ
extract_config_version key none = pos 0
extract_config_version key (some version) = if key == server_settings_key then version else pos 0

-- The loop of `LoadCachedConfig`: the versions and the one of the settings.
unfoldable pub load_versions :
    (Text → Result Text (Option ℤ)) → List Text → Map Text ℤ → ℤ → Result Text (Map Text ℤ × ℤ)
unfolding extract_config_version
load_versions load [] versions settings = ok (versions, settings)
load_versions load (key ∷ keys) versions settings = load key >>= λ payload.
    let version = extract_config_version key payload in
    load_versions load keys (insert key version versions)
      (if key == server_settings_key then version else settings)

unfoldable pub apply_cached_state : Map Text ℤ → ℤ → Bool → DegradationManager → DegradationManager
apply_cached_state versions settings has_keys m = record {
  status = elim m.status [
    | disconnected ↦ if has_keys then degraded else disconnected
    | connected ↦ connected
    | degraded ↦ degraded
  ];
  ever_connected = m.ever_connected;
  has_cached_config = has_keys;
  last_known_versions = versions;
  settings_sync_status =
      if is_pos settings
      then codes "cached"
      else if has_keys
      then codes "cached"
      else m.settings_sync_status;
  settings_config_version = if is_pos settings then settings else m.settings_config_version;
}

-- What a load finds.
pub record Loaded : Type 0 where
  pub versions : Map Text ℤ
  pub settings : ℤ
  pub has_keys : Bool

unfoldable pub loaded : ConfigCache → Result Text Loaded
unfolding load_versions
loaded cache = cache.keys >>= λ keys. load_versions cache.load keys [] (pos 0) >>= λ found.
    elim cache.refusal [
      | some e ↦ err e
      | none ↦
          ok (record { versions = found.0; settings = found.1; has_keys = not (is_empty keys) })
    ]

unfoldable pub load_cached_config :
    ConfigCache → DegradationManager → DegradationManager × Result Text (Unit {0})
unfolding loaded apply_cached_state
load_cached_config cache m = elim (loaded cache) [
  | err e ↦ (m, err e)
  | ok found ↦ (apply_cached_state found.versions found.settings found.has_keys m, ok tt)
]
