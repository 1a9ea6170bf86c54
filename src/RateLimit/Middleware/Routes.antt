-- ===== src/RateLimit/Middleware/Routes.antt =====
-- internal/ratelimit/middleware.go: the client and the route that a request is counted under, told
-- without the functions that look for them.
use cruvero_mcp_gateway.Prelude.{
  ◌≡◌, refl, ◌∙◌, ◌++◌, Bool, true, false, Option, none, some, is_empty, arith, ◌∷◌,
}
use cruvero_mcp_gateway.Prelude.Texts.{
  trim_space_idem, trim_space-append, is_space, Text, text_eq, codes, trim_space, to_lower,
  contains_text,
}
use cruvero_mcp_gateway.Identity.{Identity}
use cruvero_mcp_gateway.Identity.Callers.{CountsAs, no_caller, blank_id, own_id}
use cruvero_mcp_gateway.RateLimit.Keys.{key_string, normalize_key, or_else}
use cruvero_mcp_gateway.RateLimit.Middleware.{
  path_key, limiter_key_of, resolve_route_key, HttpRequest, resolve_client_id, read_mcp_method,
}

abbrev is_json : HttpRequest → Bool
is_json r = contains_text (to_lower r.content_type) (codes "application/json")

-- The request is a JSON POST with an MCP method.
pub data CallsMethod (decode_method : Text → Option Text) : HttpRequest → Text → Type 0 where
  calls :
      {r : HttpRequest} {body method : Text}
      → is_json r ≡ true
      → r.is_post ≡ true
      → r.body ≡ some body
      → is_empty body ≡ false
      → decode_method body ≡ some method
      → is_empty (trim_space method) ≡ false
      → CallsMethod decode_method r (trim_space method)

-- It is none, for one reason or another.
pub data CallsNone (decode_method : Text → Option Text) : HttpRequest → Type 0 where
  other_type : {r : HttpRequest} → is_json r ≡ false → CallsNone decode_method r
  no_post : {r : HttpRequest} → r.is_post ≡ false → CallsNone decode_method r
  no_body : {r : HttpRequest} → r.body ≡ none → CallsNone decode_method r
  empty_body :
      {r : HttpRequest} {body : Text}
      → r.body ≡ some body
      → is_empty body ≡ true
      → CallsNone decode_method r
  no_envelope :
      {r : HttpRequest} {body : Text}
      → r.body ≡ some body
      → decode_method body ≡ none
      → CallsNone decode_method r
  blank_method :
      {r : HttpRequest} {body method : Text}
      → r.body ≡ some body
      → decode_method body ≡ some method
      → is_empty (trim_space method) ≡ true
      → CallsNone decode_method r

-- The route has no pattern that is not blank.
pub data HasNoPattern : HttpRequest → Type 0 where
  no_pattern : {r : HttpRequest} → r.route_pattern ≡ none → HasNoPattern r
  blank_pattern :
      {r : HttpRequest} {pattern : Text}
      → r.route_pattern ≡ some pattern
      → is_empty (trim_space pattern) ≡ true
      → HasNoPattern r

-- The route that a request is counted under: its MCP method, or the pattern of the router, or the
-- path.
pub data IsOnRoute (decode_method : Text → Option Text) : HttpRequest → Text → Type 0 where
  by_method :
      {r : HttpRequest} {method : Text}
      → CallsMethod decode_method r method
      → IsOnRoute decode_method r (codes "mcp/" ++ method)
  by_pattern :
      {r : HttpRequest} {pattern : Text}
      → CallsNone decode_method r
      → r.route_pattern ≡ some pattern
      → is_empty (trim_space pattern) ≡ false
      → IsOnRoute decode_method r (trim_space pattern)
  by_path :
      {r : HttpRequest}
      → CallsNone decode_method r
      → HasNoPattern r
      → is_empty (trim_space r.path) ≡ false
      → IsOnRoute decode_method r (trim_space r.path)
  nowhere :
      {r : HttpRequest}
      → CallsNone decode_method r
      → HasNoPattern r
      → is_empty (trim_space r.path) ≡ true
      → IsOnRoute decode_method r (codes "unknown")

resolve_client_id-CountsAs :
    (r : HttpRequest) (who : Option Identity) (client : Text)
    → r.identity ≡ who
    → CountsAs who client
    → resolve_client_id r ≡ client
unfolding resolve_client_id
resolve_client_id-CountsAs r none _ e no_caller = rw (resolve_client_id, e) refl
resolve_client_id-CountsAs r (some who) _ e (blank_id h) = rw (resolve_client_id, e, h) refl
resolve_client_id-CountsAs r (some who) _ e (own_id h) = rw (resolve_client_id, e, h) refl

read_mcp_method_calls :
    (decode_method : Text → Option Text) (r : HttpRequest) (method : Text)
    → CallsMethod decode_method r method
    → (read_mcp_method decode_method r ≡ method) × (is_empty method ≡ false)
unfolding read_mcp_method
read_mcp_method_calls decode_method r _ (calls json post body some_body decoded some_method) =
    (rw (read_mcp_method, json, post, body, some_body, decoded) refl, some_method)

read_mcp_method_none :
    (decode_method : Text → Option Text) (r : HttpRequest)
    → CallsNone decode_method r
    → is_empty (read_mcp_method decode_method r) ≡ true
unfolding read_mcp_method
read_mcp_method_none decode_method r (other_type h) = ground arith
read_mcp_method_none decode_method r (no_post h) = ground arith
read_mcp_method_none decode_method r (no_body h) = ground arith
read_mcp_method_none decode_method r (empty_body h empty) = ground arith
read_mcp_method_none decode_method r (no_envelope h undecoded) = ground arith
read_mcp_method_none decode_method r (blank_method h decoded blank) = ground arith

path_of :
    (decode_method : Text → Option Text) (r : HttpRequest)
    → is_empty (read_mcp_method decode_method r) ≡ true
    → HasNoPattern r
    → resolve_route_key decode_method r ≡ path_key r
unfolding resolve_route_key
path_of decode_method r none_called (no_pattern h) = rw (resolve_route_key, none_called, h) refl
path_of decode_method r none_called (blank_pattern h blank) =
    rw (resolve_route_key, none_called, h, blank) refl

resolve_route_key-IsOnRoute :
    (decode_method : Text → Option Text) (r : HttpRequest) (route : Text)
    → IsOnRoute decode_method r route
    → resolve_route_key decode_method r ≡ route
unfolding resolve_route_key
resolve_route_key-IsOnRoute decode_method r _ (by_method {method = method} called) =
    let (same, some_method) = read_mcp_method_calls decode_method r method called in
    rw (resolve_route_key, same, some_method) refl
resolve_route_key-IsOnRoute decode_method r _ (by_pattern h pattern some_pattern) =
    rw (resolve_route_key, read_mcp_method_none decode_method r h, pattern, some_pattern) refl
resolve_route_key-IsOnRoute decode_method r _ (by_path h without some_path) =
    path_of decode_method r (read_mcp_method_none decode_method r h) without ∙ rw (some_path) refl
resolve_route_key-IsOnRoute decode_method r _ (nowhere h without blank) =
    path_of decode_method r (read_mcp_method_none decode_method r h) without ∙ rw (blank) refl

pub limiter_key_of-CountsAs :
    (decode_method : Text → Option Text) (r : HttpRequest) (client route : Text)
    → CountsAs r.identity client
    → IsOnRoute decode_method r route
    → limiter_key_of decode_method r ≡ record { client_id = client; route = route }
unfolding limiter_key_of
limiter_key_of-CountsAs decode_method r client route c on =
    rw
      (
        limiter_key_of,
        resolve_client_id-CountsAs r r.identity client refl c,
        resolve_route_key-IsOnRoute decode_method r route on,
      )
      refl

or_else_trimmed :
    (s fallback : Text)
    → is_empty (trim_space s) ≡ false
    → or_else (trim_space s) fallback ≡ trim_space s
unfolding or_else
or_else_trimmed s fallback h = rw (or_else, h) refl

client_kept :
    (who : Option Identity) (client : Text)
    → CountsAs who client
    → or_else (trim_space client) (codes "anonymous") ≡ client
unfolding or_else trim_space
client_kept none _ no_caller = refl
client_kept (some who) _ (blank_id h) = refl
client_kept (some who) _ (own_id h) = ground (arith, trim_space_idem who.id)

method_trimmed :
    (decode_method : Text → Option Text) (r : HttpRequest) (method : Text)
    → CallsMethod decode_method r method
    → trim_space (codes "mcp/" ++ method) ≡ codes "mcp/" ++ method
unfolding is_space
method_trimmed decode_method r _
      (calls {method = method} json post body some_body decoded some_method) =
    trim_space-append b'm' (codes "cp/") method refl some_method

unknown_kept : or_else (trim_space (codes "unknown")) (codes "unknown") ≡ codes "unknown"
unfolding or_else trim_space
unknown_kept = refl

route_kept :
    (decode_method : Text → Option Text) (r : HttpRequest) (route : Text)
    → IsOnRoute decode_method r route
    → or_else (trim_space route) (codes "unknown") ≡ route
unfolding or_else
route_kept decode_method r _ (by_method {method = method} called) =
    rw (or_else, method_trimmed decode_method r method called) refl
route_kept decode_method r _ (by_pattern {pattern = pattern} h held some_pattern) =
    rw (or_else, trim_space_idem pattern, some_pattern) refl
route_kept decode_method r _ (by_path h without some_path) =
    rw (or_else, trim_space_idem r.path, some_path) refl
route_kept decode_method r _ (nowhere h without blank) = unknown_kept

-- The key of the bucket of a client on a route.
abbrev pub own_key : Text → Text → Text
own_key client route = client ++ (b':' ∷ route)

pub key_string-IsOnRoute :
    (decode_method : Text → Option Text) (r : HttpRequest) (client route : Text)
    → CountsAs r.identity client
    → IsOnRoute decode_method r route
    → key_string (normalize_key (record { client_id = client; route = route }))
      ≡ own_key client route
unfolding key_string normalize_key
key_string-IsOnRoute decode_method r client route c on =
    rw
      (
        key_string,
        normalize_key,
        client_kept r.identity client c,
        route_kept decode_method r route on,
      )
      refl
