-- ===== src/Events/Policies.antt =====
-- internal/events/handlers.go: the policy profiles that the platform sends.
pub mod Valid
pub mod Profiles
use cruvero_mcp_gateway.Prelude.{
  Bool, true, false, not, List, [], ◌∷◌, Option, none, some, if◌then◌else◌, is_empty, contains,
  Result, ok, err, require, ◌>>◌, ◌>>=◌,
}
use cruvero_mcp_gateway.Prelude.Int.{is_pos}
use cruvero_mcp_gateway.Prelude.Texts.{Text, text_eq, trim_space}
use cruvero_mcp_gateway.Prelude.Maps.{Map, lookup, insert}
use cruvero_mcp_gateway.Types.{PolicyProfile, EnforcementMode, enforce, audit}
use cruvero_mcp_gateway.Policy.Engine.{Engine, replace_profiles, default_name}
use cruvero_mcp_gateway.RateLimit.Rates.{Rates}
use cruvero_mcp_gateway.RateLimit.Memory.{MemoryBackend, set_defaults}
use cruvero_mcp_gateway.Events.Settings.{Saving, saved}

pub data PolicyError : Type 0 where
  no_name bad_rate_limit bad_rate_burst bad_mode no_profiles no_default : PolicyError
  not_saved : Text → PolicyError

abbrev pub is_mode : EnforcementMode → Bool
is_mode enforce = true
is_mode audit = true
is_mode _ = false

-- The loop of `normalizeStringList`; `seen` is what is in the result already.
unfoldable pub collect_strings : List Text → List Text → List Text
unfolding contains
collect_strings [] seen = []
collect_strings (raw ∷ values) seen =
    let value = trim_space raw in
    let without = collect_strings values seen in
    let with_value = value ∷ collect_strings values (value ∷ seen) in
    if is_empty value then without else if contains seen value then without else with_value

unfoldable pub normalize_string_list : List Text → List Text
unfolding collect_strings
normalize_string_list values = collect_strings values []

-- What it returns when nothing is refused.
unfoldable pub trimmed_profile : PolicyProfile → PolicyProfile
unfolding normalize_string_list
trimmed_profile p = record {
  name = trim_space p.name;
  rate_limit = p.rate_limit;
  rate_burst = p.rate_burst;
  tool_allowlist = normalize_string_list p.tool_allowlist;
  tool_denylist = normalize_string_list p.tool_denylist;
  enforcement_mode = p.enforcement_mode;
}

unfoldable pub normalize_policy_profile : PolicyProfile → Result PolicyError PolicyProfile
unfolding trimmed_profile
normalize_policy_profile p =
    require (not (is_empty (trim_space p.name))) no_name
    >> require (is_pos p.rate_limit) bad_rate_limit
    >> require (is_pos p.rate_burst) bad_rate_burst
    >> require (is_mode p.enforcement_mode) bad_mode
    >> ok (trimmed_profile p)

-- The loop over the profiles of a message.
unfoldable pub normalize_profiles :
    List PolicyProfile
    → Map Text (Option PolicyProfile)
    → Result PolicyError (Map Text (Option PolicyProfile))
unfolding normalize_policy_profile
normalize_profiles [] out = ok out
normalize_profiles (p ∷ ps) out =
    normalize_policy_profile p >>= λ q. normalize_profiles ps (insert q.name (some q) out)

-- The profile that the message must have.
unfoldable pub required_default : Map Text (Option PolicyProfile) → Result PolicyError PolicyProfile
required_default m = elim (lookup default_name m) [
  | none ↦ err no_default
  | some found ↦ elim found [ none ↦ err no_default | some p ↦ ok p ]
]

abbrev pub mapped {ℓ} : {A : Type ℓ} → (A → A) → Option A → Option A
mapped f none = none
mapped f (some a) = some (f a)

module _ (rates : Rates) where
  -- `PolicyConfigHandler.Handle`: the engine, the backend where it is the one in memory, the error.
  unfoldable pub handle_policies :
      Saving
      → Option (Engine)
      → Option (MemoryBackend rates)
      → List PolicyProfile
      → Option (Engine) × Option (MemoryBackend rates) × Result PolicyError (Unit {0})
  unfolding normalize_profiles required_default replace_profiles set_defaults
  handle_policies saving engine backend ps =
      if is_empty ps then (engine, backend, err no_profiles) else elim (normalize_profiles ps []) [
        | err e ↦ (engine, backend, err e)
        | ok profiles ↦ elim (required_default profiles) [
          | err e ↦ (engine, backend, err e)
          | ok p ↦ (
            mapped (λ e. replace_profiles e profiles) engine,
            mapped (λ b. set_defaults rates b (rates.of_int p.rate_limit) p.rate_burst) backend,
            saved not_saved saving,
          )
        ]
      ]
