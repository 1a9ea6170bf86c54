-- ===== src/Registration/Config.antt =====
-- internal/registration/service.go: what a registration takes from the configuration, the lease
-- epochs and the hash of the capabilities.
pub mod Order
use cruvero_mcp_gateway.Prelude.{
  ℕ, suc, ◌-◌, ◌/◌, ◌^◌, Bool, true, false, not, ◌&&◌, ◌||◌, List, [], ◌∷◌, Option, none, some, ltb,
  ◌==◌, nat_beq, if◌then◌else◌, is_empty, map, keep,
}
use cruvero_mcp_gateway.Prelude.Int.{ℤ, pos, negsuc, is_pos, to_nat}
use cruvero_mcp_gateway.Prelude.Texts.{Text, text_eq, codes, trim_space, to_lower}
use cruvero_mcp_gateway.Types.{Capability, PolicyProfile, enforce}

-- What the service uses of the gateway's configuration. Durations are nanoseconds.
pub record Config : Type 0 where
  pub rate_default : ℤ
  pub rate_burst : ℤ
  pub heartbeat_ttl : ℤ
  pub capability_refresh_enabled : Bool

unfoldable pub default_policy_profile : Option Config → PolicyProfile
default_policy_profile cfg = record {
  name = codes "default";
  rate_limit = elim cfg [
    | none ↦ pos 10
    | some c ↦ if is_pos c.rate_default then c.rate_default else pos 10
  ];
  rate_burst = elim cfg [
    | none ↦ pos 20
    | some c ↦ if is_pos c.rate_burst then c.rate_burst else pos 20
  ];
  tool_allowlist = [];
  tool_denylist = [];
  enforcement_mode = enforce;
}

unfoldable pub heartbeat_interval_seconds : Option Config → ℕ
heartbeat_interval_seconds none = 30
heartbeat_interval_seconds (some c) =
    let seconds = to_nat c.heartbeat_ttl / 1_000_000_000 in
    if not (is_pos c.heartbeat_ttl) then 30 else if nat_beq seconds 0 then 1 else seconds

unfoldable pub normalized_listen_protocol : Text → Text
normalized_listen_protocol raw =
    let protocol = to_lower (trim_space raw) in
    if protocol == codes "http" || protocol == codes "https" then protocol else codes "https"

-- current + 1 of an int64, which wraps.
unfoldable pub next_lease_epoch : ℤ → ℤ
next_lease_epoch (negsuc n) = pos 1
next_lease_epoch (pos n) =
    if nat_beq n 0
    then pos 1
    else if nat_beq (suc n) (2 ^ 63)
    then negsuc (2 ^ 63 - 1)
    else pos (suc n)

-- The order of Go's strings, which code points have too.
unfoldable pub text_leb : Text → Text → Bool
text_leb [] t = true
text_leb (c ∷ s) [] = false
text_leb (c ∷ s) (d ∷ t) = ltb c d || (nat_beq c d && text_leb s t)

unfoldable pub insert_text : Text → List Text → List Text
unfolding text_leb
insert_text s [] = s ∷ []
insert_text s (t ∷ ts) = if text_leb s t then s ∷ t ∷ ts else t ∷ insert_text s ts

-- sort.Strings
unfoldable pub sort_strings : List Text → List Text
unfolding insert_text
sort_strings [] = []
sort_strings (s ∷ ss) = insert_text s (sort_strings ss)

-- `digest` is the hexadecimal SHA-256 of the JSON of the sorted capabilities.
unfoldable pub hash_capabilities : (Capability → Text) → Capability → Text
unfolding sort_strings
hash_capabilities digest c = digest (record {
  tools = sort_strings c.tools;
  resources = sort_strings c.resources;
  prompts = sort_strings c.prompts;
})

unfoldable pub copy_string_slice : List Text → List Text
unfolding keep
copy_string_slice values = keep (λ s. not (is_empty s)) (map trim_space values)
