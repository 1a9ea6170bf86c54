-- ===== src/Events/Policies/Valid.antt =====
-- internal/events/handlers.go: the profiles that pass `normalizePolicyProfile`.
use mathlib.Core.Path.{subst}
use cruvero_mcp_gateway.Prelude.{
  ◌≡◌, refl, ◌⊎◌, inl, inr, true, false, not, List, [], ◌∷◌, Option, none, some, is_empty, contains,
  Result, ok, require, ◌>>◌, All, arith, Bool-cases, Result-cases, require-true, then_ok,
}
use cruvero_mcp_gateway.Prelude.Int.{is_pos}
use cruvero_mcp_gateway.Prelude.Texts.{Text, text_eq, trim_space, trim_space_idem}
use cruvero_mcp_gateway.Prelude.Maps.{Map, insert, AllValues, insert-AllValues}
use cruvero_mcp_gateway.Types.{PolicyProfile, EnforcementMode, enforce, audit, unset, other_mode}
use cruvero_mcp_gateway.Events.Policies.{
  PolicyError, is_mode, collect_strings, normalize_string_list, trimmed_profile,
  normalize_policy_profile, normalize_profiles, no_name, bad_rate_limit, bad_rate_burst, bad_mode,
}

-- Trimmed and not blank.
abbrev pub IsName : Text → Type 0
IsName s = (trim_space s ≡ s) × (is_empty s ≡ false)

abbrev pub IsValidProfile : PolicyProfile → Type 0
IsValidProfile p =
    (is_pos p.rate_limit ≡ true)
    × (is_pos p.rate_burst ≡ true)
    × ((p.enforcement_mode ≡ enforce) ⊎ (p.enforcement_mode ≡ audit))
    × All IsName p.tool_allowlist
    × All IsName p.tool_denylist

-- The entry of a pointer that is not nil.
abbrev pub IsValidEntry : Option PolicyProfile → Type 0
IsValidEntry none = ⊥
IsValidEntry (some p) = IsValidProfile p

collected : (values seen : List Text) → All IsName (collect_strings values seen)
unfolding collect_strings
collected [] seen = tt
collected (raw ∷ values) seen = elim (Bool-cases (is_empty (trim_space raw))) [
  | inl blank ↦ rw (collect_strings, blank) (collected values seen)
  | inr named ↦ elim (Bool-cases (contains seen (trim_space raw))) [
    | inl old ↦ rw (collect_strings, named, old) (collected values seen)
    | inr new ↦
        rw (collect_strings, named, new)
          ((trim_space_idem raw, named), collected values (trim_space raw ∷ seen))
  ]
]

mode_of : (m : EnforcementMode) → is_mode m ≡ true → (m ≡ enforce) ⊎ (m ≡ audit)
mode_of enforce h = inl refl
mode_of audit h = inr refl
mode_of unset h = ground arith
mode_of (other_mode s) h = ground arith

same_profile :
    (r : Result PolicyError PolicyProfile) (p q : PolicyProfile) → r ≡ ok p → r ≡ ok q → p ≡ q
same_profile r p q h h' = ground arith

normalize_policy_profile-IsValidProfile :
    (p q : PolicyProfile) → normalize_policy_profile p ≡ ok q → IsValidProfile q
unfolding normalize_policy_profile trimmed_profile normalize_string_list
normalize_policy_profile-IsValidProfile p q h =
    let named = require (not (is_empty (trim_space p.name))) no_name in
    let limit = require (is_pos p.rate_limit) bad_rate_limit in
    let burst = require (is_pos p.rate_burst) bad_rate_burst in
    let mode = require (is_mode p.enforcement_mode) bad_mode in
    let out = ok (trimmed_profile p) in
    let (tests, taken) = then_ok (named >> limit >> burst >> mode) out q h in
    let (before_mode, has_mode) = then_ok (named >> limit >> burst) mode tt tests in
    let (before_burst, has_burst) = then_ok (named >> limit) burst tt before_mode in
    let (before_limit, has_limit) = then_ok named limit tt before_burst in
    subst (λ x. IsValidProfile x) (same_profile out (trimmed_profile p) q refl taken)
      (
        require-true (is_pos p.rate_limit) bad_rate_limit tt has_limit,
        require-true (is_pos p.rate_burst) bad_rate_burst tt has_burst,
        mode_of p.enforcement_mode (require-true (is_mode p.enforcement_mode) bad_mode tt has_mode),
        collected p.tool_allowlist [],
        collected p.tool_denylist [],
      )

pub normalize_profiles-All :
    (ps : List PolicyProfile) (out m : Map Text (Option PolicyProfile))
    → AllValues IsValidEntry out
    → normalize_profiles ps out ≡ ok m
    → AllValues IsValidEntry m
unfolding normalize_profiles
normalize_profiles-All [] out m all h =
    let e : out ≡ m = ground arith in subst (λ x. AllValues IsValidEntry x) e all
normalize_profiles-All (p ∷ ps) out m all h = elim (Result-cases (normalize_policy_profile p)) [
  | inr (e, refused) ↦ ground arith
  | inl (q, fine) ↦
      normalize_profiles-All ps (insert q.name (some q) out) m
        (insert-AllValues IsValidEntry q.name (some q) out
          (normalize_policy_profile-IsValidProfile p q fine) all)
        (ground arith)
]
