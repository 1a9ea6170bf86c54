-- ===== src/Scenarios/Events.antt =====
-- Messages from the platform: the settings of a server, two profiles and two prefixes, and a
-- connection that comes back (internal/events).
use cruvero_mcp_gateway.Prelude.{
  refl, true, [], ◌∷◌, List, Option, none, some, ℕ, ok, false, ◌≡◌, err, if◌then◌else◌, ◌⊎◌, ◌>>=◌,
  require, not, any, ◌||◌, ◌&&◌, ◌==◌,
}
use cruvero_mcp_gateway.Prelude.Int.{ℤ, pos}
use cruvero_mcp_gateway.Prelude.Texts.{trim_space, text_beq, codes, text_eq, Text}
use cruvero_mcp_gateway.Prelude.Maps.{lookup, insert}
use cruvero_mcp_gateway.Types.{PolicyProfile, EnforcementMode, enforce, audit}
use cruvero_mcp_gateway.Policy.Values.{Fields, num, str, field, end}
use cruvero_mcp_gateway.Policy.Engine.{Engine, new_engine, resolve_profile}
use cruvero_mcp_gateway.Registration.Settings.{effective_settings_for_server}
use cruvero_mcp_gateway.Events.Settings.{Saving, ServerSettingsConfig}
use cruvero_mcp_gateway.Events.Settings.Plain.{IsPlain}
use cruvero_mcp_gateway.Events.Settings.Secrets.{after_all, after_all-IsPlain}
use cruvero_mcp_gateway.Events.Policies.{handle_policies}
use cruvero_mcp_gateway.Events.Policies.Valid.{IsValidProfile}
use cruvero_mcp_gateway.Events.Policies.Profiles.{handle_policies-IsValidProfile}
use cruvero_mcp_gateway.Identity.{parse_spiffe_id, prefix_allows, validate_spiffe_id, not_allowed}
use cruvero_mcp_gateway.Events.Servers.{handle_servers, bad_prefix}
use cruvero_mcp_gateway.Events.Servers.Admission.{is_named, is_foreign, handle_servers_admits}
use cruvero_mcp_gateway.Events.Degradation.{ConfigCache, new_degradation_manager}
use cruvero_mcp_gateway.Events.Degradation.Status.{
  run, lost, back, loads, status_of, last_link, was_cached, was_back, run-new-status_of,
}
use cruvero_mcp_gateway.Scenarios.Registrations.{urls}
use cruvero_mcp_gateway.Scenarios.Limits.{whole_rates}

abbrev told : Fields ℕ → List (ServerSettingsConfig ℕ)
told fs = record { server_name = codes "k8s"; effective_settings = fs } ∷ []

-- The second message is refused.
abbrev messages : List (Saving × ℤ × List (ServerSettingsConfig ℕ))
messages =
    (none, pos 1, told (field (codes "depth") (num 3) end))
    ∷ (none, pos 2, told (field (codes "api_key") (str (codes "x")) end))
    ∷ []

after_all-IsPlain_example :
    IsPlain
      (effective_settings_for_server
        (after_all (record { version = pos 0; by_server = [] }) messages)
        (codes "k8s")).1
after_all-IsPlain_example = after_all-IsPlain (pos 0) messages (codes "k8s")

abbrev profile_of : EnforcementMode → PolicyProfile
profile_of mode = record {
  name = codes "default";
  rate_limit = pos 4;
  rate_burst = pos 8;
  tool_allowlist = [];
  tool_denylist = codes " drop " ∷ codes "drop" ∷ [];
  enforcement_mode = mode;
}

abbrev engine : Engine
engine = new_engine [] [] true

abbrev sent : List PolicyProfile
sent = record (profile_of enforce) { name = codes "strict" } ∷ profile_of audit ∷ []

abbrev engine_of : Option Engine → Engine
engine_of none = engine
engine_of (some e) = e

abbrev handled : Engine
handled = engine_of (handle_policies whole_rates none (some engine) none sent).0

handle_policies-IsValidProfile_example : IsValidProfile (resolve_profile handled (codes "nobody"))
unfolding handle_policies trim_space lookup insert text_beq
handle_policies-IsValidProfile_example =
    handle_policies-IsValidProfile whole_rates none engine handled none none sent (codes "nobody")
      refl

-- A blank prefix and one of a trust domain.
abbrev prefixes : List Text
prefixes = codes " " ∷ codes " spiffe://a/ " ∷ []

handle_servers_admits_example :
    let (after, result) = handle_servers none [] prefixes in
    ((p : Text) × (after ≡ [])
      × (result ≡ err (bad_prefix p))
      × (any (λ raw. is_foreign raw && trim_space raw == p) prefixes ≡ true))
    ⊎ ((any is_foreign prefixes ≡ false)
        × (validate_spiffe_id urls (codes "spiffe://a/s") after ≡ (
            parse_spiffe_id urls (codes "spiffe://a/s") >>= λ parts.
            require
              (not (any is_named prefixes) || prefix_allows urls (codes "spiffe://a/s") prefixes)
              not_allowed)))
handle_servers_admits_example = handle_servers_admits urls none [] prefixes (codes "spiffe://a/s")

-- Two keys, of which one is of the settings.
abbrev saved_configs : ConfigCache
saved_configs = record {
  keys = ok (codes "config.policy" ∷ codes "config.server_settings" ∷ []);
  load = λ key. ok (some (pos 3));
  refusal = none;
}

run-new-status_of_example :
    let m = run (new_degradation_manager false) (loads saved_configs ∷ back true ∷ lost ∷ []) in
    (m.status
      ≡ status_of
          (last_link
            (if false then some true else none)
            (loads saved_configs ∷ back true ∷ lost ∷ []))
          (was_cached false (loads saved_configs ∷ back true ∷ lost ∷ [])))
    × (m.ever_connected ≡ was_back false (loads saved_configs ∷ back true ∷ lost ∷ []))
run-new-status_of_example = run-new-status_of false (loads saved_configs ∷ back true ∷ lost ∷ [])
