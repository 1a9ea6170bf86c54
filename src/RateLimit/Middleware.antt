-- ===== src/RateLimit/Middleware.antt =====
-- internal/ratelimit/middleware.go and resolver.go: the requests that a backend is asked for. A
-- backend is a function of its state; traces, logs and the header with the time of the reset are
-- left out.
pub mod Routes
pub mod Buckets
pub mod Admission
use cruvero_mcp_gateway.Prelude.{
  ℕ, Bool, true, false, not, ◌&&◌, ◌||◌, List, Option, none, some, ◌++◌, if◌then◌else◌, is_empty,
  Result, ok, err,
}
use cruvero_mcp_gateway.Prelude.Int.{ℤ, pos, is_pos, to_nat}
use cruvero_mcp_gateway.Prelude.Texts.{Text, text_eq, codes, trim_space, to_lower, contains_text}
use cruvero_mcp_gateway.Prelude.Maps.{Map, lookup}
use cruvero_mcp_gateway.Types.{PolicyProfile}
use cruvero_mcp_gateway.Identity.{Identity}
use cruvero_mcp_gateway.RateLimit.Keys.{LimiterKey}
use cruvero_mcp_gateway.RateLimit.Rates.{Rates}

-- `DefaultProfileResolver`, whose profiles are pointers.
pub record ProfileResolver : Type 0 where
  pub profiles : Map Text (Option PolicyProfile)
  pub default_profile : Option PolicyProfile

abbrev pub named_profile : ProfileResolver → Text → Option PolicyProfile
named_profile r name = elim (lookup name r.profiles) [ none ↦ none | some profile ↦ profile ]

abbrev pub metadata_of : Identity → Text → Text
metadata_of id key = elim (lookup key id.metadata) [ none ↦ codes "" | some value ↦ value ]

unfoldable pub resolve : ProfileResolver → Option Identity → Option PolicyProfile
unfolding lookup
resolve r none = r.default_profile
resolve r (some id) =
    let name = trim_space (metadata_of id (codes "policy_profile")) in
    if is_empty name
    then r.default_profile
    else elim (named_profile r name) [ none ↦ r.default_profile | some profile ↦ some profile ]

-- What the middleware reads of a request: `body` is none where there is none or it does not read,
-- and `route_pattern` is of the router, if there is one.
pub record HttpRequest : Type 0 where
  pub identity : Option Identity
  pub content_type : Text
  pub is_post : Bool
  pub body : Option Text
  pub route_pattern : Option Text
  pub path : Text

abbrev pub anonymous : Text
anonymous = codes "anonymous"

unfoldable pub resolve_client_id : HttpRequest → Text
resolve_client_id r = elim r.identity [
  | none ↦ anonymous
  | some id ↦ if is_empty (trim_space id.id) then anonymous else trim_space id.id
]

-- `decode_method` is the method of the JSON envelope, none where the body is no such object.
unfoldable pub read_mcp_method : (Text → Option Text) → HttpRequest → Text
unfolding contains_text
read_mcp_method decode_method r =
    if not (contains_text (to_lower r.content_type) (codes "application/json")) || not r.is_post
    then codes ""
    else elim r.body [
      | none ↦ codes ""
      | some body ↦
          if is_empty body
          then codes ""
          else elim (decode_method body) [ none ↦ codes "" | some method ↦ trim_space method ]
    ]

abbrev pub path_key : HttpRequest → Text
path_key r = if is_empty (trim_space r.path) then codes "unknown" else trim_space r.path

unfoldable pub resolve_route_key : (Text → Option Text) → HttpRequest → Text
unfolding read_mcp_method
resolve_route_key decode_method r =
    let method = read_mcp_method decode_method r in
    if not (is_empty method) then codes "mcp/" ++ method else elim r.route_pattern [
      | none ↦ path_key r
      | some pattern ↦ if is_empty (trim_space pattern) then path_key r else trim_space pattern
    ]

unfoldable pub limiter_key_of : (Text → Option Text) → HttpRequest → LimiterKey
unfolding resolve_client_id resolve_route_key
limiter_key_of decode_method r = record {
  client_id = resolve_client_id r;
  route = resolve_route_key decode_method r;
}

module _ (rates : Rates) where
  -- A limit and a burst of zero leave the choice to the backend.
  unfoldable pub resolve_profile : Option ProfileResolver → HttpRequest → rates.Rate × ℤ
  unfolding resolve
  resolve_profile none r = (rates.of_int (pos 0), pos 0)
  resolve_profile (some resolver) r = elim (resolve resolver r.identity) [
    | none ↦ (rates.of_int (pos 0), pos 0)
    | some p ↦ (
      rates.of_int (if is_pos p.rate_limit then p.rate_limit else pos 0),
      if is_pos p.rate_burst then p.rate_burst else pos 0,
    )
  ]

  pub record Verdict : Type 0 where
    pub allowed : Bool
    pub remaining : ℤ
    pub retry_after : ℤ

  abbrev pub Backend : Type 0 → Type 0
  Backend S = S → LimiterKey → rates.Rate → ℤ → Result Text Verdict × S

  -- The headers with the limit and the remaining requests.
  pub record Headers : Type 0 where
    pub limit : rates.Rate
    pub remaining : ℤ

  unfoldable pub backend_headers : rates.Rate → ℤ → Headers
  backend_headers limit remaining = record {
    limit = if rates.is_positive limit then limit else rates.of_int (pos 10);
    remaining = pos (to_nat remaining);
  }

  -- The next handler is called, or 429 is answered with the seconds to wait, and the observer told.
  pub data Response : Type 0 where
    passed : Option Headers → Response
    limited : Headers → ℤ → LimiterKey → Response

  -- `ceil_seconds` are the seconds of a duration, rounded up in float64.
  unfoldable pub retry_after_seconds : (ℤ → ℤ) → ℤ → ℤ
  retry_after_seconds ceil_seconds wait =
      if is_pos (ceil_seconds wait) then ceil_seconds wait else pos 1

  -- What is done with the backend's answer.
  unfoldable pub respond : (ℤ → ℤ) → LimiterKey → rates.Rate → Result Text Verdict → Response
  unfolding backend_headers retry_after_seconds
  respond ceil_seconds key limit (err e) = passed none
  respond ceil_seconds key limit (ok v) =
      let headers = backend_headers limit v.remaining in
      if v.allowed
      then passed (some headers)
      else limited headers (retry_after_seconds ceil_seconds v.retry_after) key

  unfoldable pub serve :
      {S : Type 0}
      → (Text → Option Text)
      → (ℤ → ℤ)
      → Option ProfileResolver
      → Option (Backend S)
      → S
      → HttpRequest
      → Response × S
  unfolding limiter_key_of resolve_profile respond
  serve decode_method ceil_seconds resolver none s r = (passed none, s)
  serve decode_method ceil_seconds resolver (some backend) s r =
      let key = limiter_key_of decode_method r in
      let (limit, burst) = resolve_profile resolver r in
      let (answer, s') = backend s key limit burst in (respond ceil_seconds key limit answer, s')
