-- ===== src/Scenarios/Limits.antt =====
-- Keys of two callers, with whole numbers for the rates (internal/ratelimit).
use cruvero_mcp_gateway.Prelude.{
  ◌≡◌, refl, false, [], none, some, ℕ, ◌-◌, ◌==◌, if◌then◌else◌, ◌↔◌, ltb, true,
}
use cruvero_mcp_gateway.Prelude.Int.{ℤ, pos, is_pos, to_nat}
use cruvero_mcp_gateway.Prelude.Texts.{to_lower, codes, text_eq}
use cruvero_mcp_gateway.Prelude.Maps.{lookup}
use cruvero_mcp_gateway.RateLimit.Keys.{LimiterKey, key_eq, normalize_key, key_string, label}
use cruvero_mcp_gateway.RateLimit.Keys.Labels.{has_colon, label-key_string}
use cruvero_mcp_gateway.RateLimit.Rates.{Rates}
use cruvero_mcp_gateway.RateLimit.Store.{LimiterStore, new_limiter_store, get_or_create}
use cruvero_mcp_gateway.RateLimit.Store.Sharing.{new-IsDistinct, get_or_create-shares}
use cruvero_mcp_gateway.RateLimit.Memory.{MemoryBackend}
use cruvero_mcp_gateway.Identity.{mtls}
use cruvero_mcp_gateway.RateLimit.Middleware.{HttpRequest, serve}
use cruvero_mcp_gateway.RateLimit.Middleware.Admission.{
  memory, is_passed, IsRefusalOf, serve-memory,
}
use cruvero_mcp_gateway.Prelude.Texts.{to_lower, trim_space, contains_text}
use cruvero_mcp_gateway.Identity.Callers.{own_id}
use cruvero_mcp_gateway.RateLimit.Middleware.Routes.{own_key, by_method, calls}
use cruvero_mcp_gateway.RateLimit.Middleware.Buckets.{bucket, no_resolver}

-- A limiter is the number of its tokens, and never fills.
abbrev pub whole_rates : Rates
whole_rates = record {
  Rate = ℤ;
  is_positive = is_pos;
  of_int = λ z. z;
  one = pos 1;
  one_minus = λ z. pos (1 - to_nat z);
  floor = λ z. z;
  duration = λ needed limit. needed;
  Limiter = ℕ;
  new_limiter = λ limit burst. to_nat burst;
  allow = λ now n. (ltb 0 n, n - 1);
  tokens = λ now n. pos n;
  limit = λ n. pos 1;
  of_int_positive = λ z. refl;
}

abbrev alice : LimiterKey
alice = record { client_id = codes "alice"; route = codes "/mcp" }

abbrev padded : LimiterKey
padded = record { client_id = codes " alice "; route = codes "/mcp" }

abbrev store : LimiterStore whole_rates
store = new_limiter_store whole_rates (pos 5) (pos 3)

label-key_string_example : (label (key_string alice) ≡ alice) ↔ (has_colon alice.client_id ≡ false)
label-key_string_example = label-key_string alice

get_or_create-shares_example :
    ((get_or_create whole_rates store alice none 1).0.address
      ≡ (get_or_create whole_rates
          (get_or_create whole_rates store alice none 1).1
          padded
          none
          2).0.address)
    ↔ (normalize_key alice ≡ normalize_key padded)
get_or_create-shares_example =
    get_or_create-shares {rates = whole_rates} store alice padded none none 1 2
      (new-IsDistinct (pos 5) (pos 3))

abbrev backend : MemoryBackend whole_rates
backend = record { limiters = []; default_rate = pos 10; default_burst = pos 20; max_idle = 300 }

-- A call of a tool by alice, who has no profile of her own.
abbrev post : HttpRequest
post = record {
  identity = some (record { kind = mtls; id = codes "alice"; scopes = []; metadata = [] });
  content_type = codes "application/json";
  is_post = true;
  body = some (codes "tools/call");
  route_pattern = none;
  path = codes "/mcp";
}

serve-memory_example :
    let (response, after) =
      serve whole_rates (λ s. some s) (λ z. z) none (some (memory whole_rates 9)) backend post in
    let own = own_key (codes "alice") (codes "mcp/tools/call") in
    let (has_token, l) = whole_rates.allow 9 (bucket whole_rates backend own none) in
    (is_passed whole_rates response ≡ has_token)
    × IsRefusalOf whole_rates
        (record { client_id = codes "alice"; route = codes "mcp/tools/call" })
        response
    × (lookup (codes "other") after.limiters ≡ (
        if own == codes "other"
        then some (record { limiter = l; last_used = 9 })
        else lookup (codes "other") backend.limiters))
unfolding trim_space contains_text to_lower
serve-memory_example =
    serve-memory whole_rates (λ s. some s) (λ z. z) none backend post 9 (codes "alice")
      (codes "mcp/tools/call") none (codes "other") (own_id refl)
      (by_method (
        calls {r = post} {body = codes "tools/call"} {method = codes "tools/call"} refl refl refl
          refl refl refl))
      no_resolver
