-- ===== src/RateLimit/Middleware/Buckets.antt =====
-- internal/ratelimit/resolver.go, middleware.go and memory_backend.go: the profile that a caller is
-- limited by and the bucket that it gets, told without the functions that look for them.
use cruvero_mcp_gateway.Prelude.{◌≡◌, refl, ap, ◌∙◌, Option, none, some, if◌then◌else◌, arith}
use cruvero_mcp_gateway.Prelude.Int.{ℤ, pos, is_pos}
use cruvero_mcp_gateway.Prelude.Texts.{Text, text_eq, codes, trim_space}
use cruvero_mcp_gateway.Prelude.Maps.{lookup}
use cruvero_mcp_gateway.Types.{PolicyProfile}
use cruvero_mcp_gateway.Identity.{Identity}
use cruvero_mcp_gateway.Identity.Callers.{no_caller, NamesProfile, no_entry, blank_entry, entry}
use cruvero_mcp_gateway.RateLimit.Rates.{Rates}
use cruvero_mcp_gateway.RateLimit.Memory.{
  MemoryBackend, limiter_for, effective_limit, effective_burst,
}
use cruvero_mcp_gateway.RateLimit.Middleware.{
  named_profile, metadata_of, resolve_profile, resolve, ProfileResolver, HttpRequest,
}

-- The profile that a caller is limited by, none for the limits of the backend.
pub data IsLimitedBy
    : Option ProfileResolver → Option Identity → Option PolicyProfile → Type 0 where
  no_resolver : {who : Option Identity} → IsLimitedBy none who none
  unnamed :
      {res : ProfileResolver} {who : Option Identity}
      → NamesProfile who none
      → IsLimitedBy (some res) who res.default_profile
  missing :
      {res : ProfileResolver} {who : Option Identity} {name : Text}
      → NamesProfile who (some name)
      → lookup name res.profiles ≡ none
      → IsLimitedBy (some res) who res.default_profile
  nil_pointer :
      {res : ProfileResolver} {who : Option Identity} {name : Text}
      → NamesProfile who (some name)
      → lookup name res.profiles ≡ some none
      → IsLimitedBy (some res) who res.default_profile
  named :
      {res : ProfileResolver} {who : Option Identity} {name : Text} {p : PolicyProfile}
      → NamesProfile who (some name)
      → lookup name res.profiles ≡ some (some p)
      → IsLimitedBy (some res) who (some p)

metadata_missing :
    (who : Identity) (key : Text) → lookup key who.metadata ≡ none → metadata_of who key ≡ codes ""
metadata_missing who key h = rw (metadata_of, h) refl

metadata_held :
    (who : Identity) (key name : Text)
    → lookup key who.metadata ≡ some name
    → metadata_of who key ≡ name
metadata_held who key name h = rw (metadata_of, h) refl

resolve-unnamed :
    (res : ProfileResolver) (who : Option Identity)
    → NamesProfile who none
    → resolve res who ≡ res.default_profile
unfolding resolve trim_space
resolve-unnamed res none no_caller = refl
resolve-unnamed res (some who) (no_entry h) =
    ground (arith, metadata_missing who (codes "policy_profile") h)
resolve-unnamed res (some who) (blank_entry {name = name} h blank) =
    ground (arith, metadata_held who (codes "policy_profile") name h)

resolve-named :
    (res : ProfileResolver) (who : Option Identity) (name : Text) (found : Option PolicyProfile)
    → NamesProfile who (some name)
    → named_profile res name ≡ found
    → resolve res who ≡ (elim found [ none ↦ res.default_profile | some p ↦ some p ])
unfolding resolve
resolve-named res (some who) _ found (entry {name = name} h some_name) e =
    ground (arith, metadata_held who (codes "policy_profile") name h)
resolve-named res none name found x e = elim x [ ]

module _ (rates : Rates) where
  -- The rate and the burst of a new bucket: the profile's where they are positive.
  abbrev pub rate_of : MemoryBackend rates → Option PolicyProfile → rates.Rate
  rate_of mb none = mb.default_rate
  rate_of mb (some p) = if is_pos p.rate_limit then rates.of_int p.rate_limit else mb.default_rate

  abbrev pub burst_of : MemoryBackend rates → Option PolicyProfile → ℤ
  burst_of mb none = mb.default_burst
  burst_of mb (some p) = if is_pos p.rate_burst then p.rate_burst else mb.default_burst

  -- The bucket under a key: the one that is there, or a full one.
  abbrev pub bucket : MemoryBackend rates → Text → Option PolicyProfile → rates.Limiter
  bucket mb own profile = elim (lookup own mb.limiters) [
    | some e ↦ e.limiter
    | none ↦ rates.new_limiter (rate_of mb profile) (burst_of mb profile)
  ]

  -- What the middleware asks the backend for.
  abbrev wanted : Option PolicyProfile → rates.Rate × ℤ
  wanted none = (rates.of_int (pos 0), pos 0)
  wanted (some p) = (
    rates.of_int (if is_pos p.rate_limit then p.rate_limit else pos 0),
    if is_pos p.rate_burst then p.rate_burst else pos 0,
  )

  resolve_profile_of :
      (res : ProfileResolver) (r : HttpRequest) (profile : Option PolicyProfile)
      → resolve res r.identity ≡ profile
      → resolve_profile rates (some res) r ≡ wanted profile
  unfolding resolve_profile
  resolve_profile_of res r none e = rw (resolve_profile, e) refl
  resolve_profile_of res r (some p) e = rw (resolve_profile, e) refl

  resolve_profile-IsLimitedBy :
      (resolver : Option ProfileResolver) (r : HttpRequest) (who : Option Identity)
      (profile : Option PolicyProfile)
      → r.identity ≡ who
      → IsLimitedBy resolver who profile
      → resolve_profile rates resolver r ≡ wanted profile
  unfolding resolve_profile
  resolve_profile-IsLimitedBy resolver r who _ e no_resolver = refl
  resolve_profile-IsLimitedBy (some res) r who _ e (unnamed u) =
      resolve_profile_of res r res.default_profile (rw e (resolve-unnamed res who u))
  resolve_profile-IsLimitedBy (some res) r who _ e (missing {name = name} u h) =
      resolve_profile_of res r res.default_profile
        (rw e (resolve-named res who name none u (rw (named_profile, h) refl)))
  resolve_profile-IsLimitedBy (some res) r who _ e (nil_pointer {name = name} u h) =
      resolve_profile_of res r res.default_profile
        (rw e (resolve-named res who name none u (rw (named_profile, h) refl)))
  resolve_profile-IsLimitedBy (some res) r who _ e (named {name = name} {p = p} u h) =
      resolve_profile_of res r (some p)
        (rw e (resolve-named res who name (some p) u (rw (named_profile, h) refl)))

  effective_limit-wanted :
      (mb : MemoryBackend rates) (profile : Option PolicyProfile)
      → effective_limit rates mb (wanted profile).0 ≡ rate_of mb profile
  unfolding effective_limit
  effective_limit-wanted mb none = rw (effective_limit, rates.of_int_positive (pos 0)) refl
  effective_limit-wanted mb (some p) =
      ground (arith, rates.of_int_positive p.rate_limit, rates.of_int_positive (pos 0))

  effective_burst-wanted :
      (mb : MemoryBackend rates) (profile : Option PolicyProfile)
      → effective_burst rates mb (wanted profile).1 ≡ burst_of mb profile
  unfolding effective_burst
  effective_burst-wanted mb none = refl
  effective_burst-wanted mb (some p) = ground arith

  limiter_for-wanted :
      (mb : MemoryBackend rates) (own : Text) (profile : Option PolicyProfile)
      → limiter_for rates mb own (wanted profile).0 (wanted profile).1 ≡ bucket mb own profile
  unfolding limiter_for
  limiter_for-wanted mb own profile =
      ground (arith, effective_limit-wanted mb profile, effective_burst-wanted mb profile)

  pub limiter_for-bucket :
      (mb : MemoryBackend rates) (own : Text) (resolver : Option ProfileResolver) (r : HttpRequest)
      (profile : Option PolicyProfile)
      → IsLimitedBy resolver r.identity profile
      → let (limit, burst) = resolve_profile rates resolver r in
        limiter_for rates mb own limit burst ≡ bucket mb own profile
  limiter_for-bucket mb own resolver r profile by =
      ap (λ w. limiter_for rates mb own w.0 w.1)
        (resolve_profile-IsLimitedBy resolver r r.identity profile refl by)
      ∙ limiter_for-wanted mb own profile
