-- ===== src/Events/Policies/Profiles.antt =====
-- internal/events/handlers.go: the profiles that a tool call is judged by after an update.
use mathlib.Core.Path.{subst}
use cruvero_mcp_gateway.Prelude.{
  ◌≡◌, refl, ◌⊎◌, inl, inr, List, [], ◌∷◌, Option, none, some, is_empty, ok, arith, Bool-cases,
  Option-cases, Result-cases, ◌==◌, eq_iff, eq_self,
}
use cruvero_mcp_gateway.Prelude.Texts.{Text, text_eq, trim_space}
use cruvero_mcp_gateway.Prelude.Maps.{
  Map, lookup, insert, lookup-insert, AllValues, insert-AllValues, lookup-AllValues,
}
use cruvero_mcp_gateway.Types.{PolicyProfile}
use cruvero_mcp_gateway.Policy.Engine.{
  Engine, replace_profiles, default_name, copy_profiles, with_default, profile_at,
  profile_or_default, resolve_profile,
}
use cruvero_mcp_gateway.RateLimit.Rates.{Rates}
use cruvero_mcp_gateway.RateLimit.Memory.{MemoryBackend}
use cruvero_mcp_gateway.Events.Settings.{Saving}
use cruvero_mcp_gateway.Events.Policies.{normalize_profiles, required_default, handle_policies}
use cruvero_mcp_gateway.Events.Policies.Valid.{IsValidProfile, IsValidEntry, normalize_profiles-All}

copy_profiles-All :
    (m copied : Map Text (Option PolicyProfile))
    → AllValues IsValidEntry m
    → AllValues IsValidEntry copied
    → AllValues IsValidEntry (copy_profiles m copied)
unfolding copy_profiles
copy_profiles-All [] copied all held = held
copy_profiles-All ((name, profile) ∷ rest) copied (valid, all) held =
    copy_profiles-All rest (insert (trim_space name) profile copied) all
      (insert-AllValues IsValidEntry (trim_space name) profile copied valid held)

abbrev Has : Text → Map Text (Option PolicyProfile) → Type 0
Has k m = (o : Option PolicyProfile) × (lookup k m ≡ some o)

insert-Has :
    (k name : Text) (o : Option PolicyProfile) (m : Map Text (Option PolicyProfile))
    → Has k m
    → Has k (insert name o m)
insert-Has k name o m (p, h) = elim (Bool-cases (name == k)) [
  | inl e ↦ (o, ground (arith, lookup-insert name k o m))
  | inr e ↦ (p, ground (arith, lookup-insert name k o m))
]

copy_profiles-keeps :
    (k : Text) (m copied : Map Text (Option PolicyProfile))
    → Has k copied
    → Has k (copy_profiles m copied)
unfolding copy_profiles
copy_profiles-keeps k [] copied h = h
copy_profiles-keeps k ((name, profile) ∷ rest) copied h =
    copy_profiles-keeps k rest (insert (trim_space name) profile copied)
      (insert-Has k (trim_space name) profile copied h)

copy_profiles-Has :
    (k : Text) (m copied : Map Text (Option PolicyProfile))
    → trim_space k ≡ k
    → Has k m
    → Has k (copy_profiles m copied)
unfolding copy_profiles lookup
copy_profiles-Has k [] copied t (o, h) = ground arith
copy_profiles-Has k ((name, profile) ∷ rest) copied t (o, h) = elim (Bool-cases (name == k)) [
  | inl e ↦ copy_profiles-keeps k rest (insert (trim_space name) profile copied) (
    profile,
    ground (arith, lookup-insert (trim_space name) k profile copied, eq_iff name k, eq_self k, t),
  )
  | inr e ↦ copy_profiles-Has k rest (insert (trim_space name) profile copied) t (o, ground arith)
]

-- What an engine finds under a name is valid.
ValidAt : Text → Map Text (Option PolicyProfile) → Type 0
ValidAt k m = (p : PolicyProfile) × (profile_at k m ≡ some p) × IsValidProfile p

entry_of :
    (k : Text) (m : Map Text (Option PolicyProfile)) (o : Option PolicyProfile)
    → IsValidEntry o
    → lookup k m ≡ some o
    → ValidAt k m
unfolding profile_at ValidAt
entry_of k m none valid h = absurd valid
entry_of k m (some p) valid h = (p, rw (profile_at, h) refl, valid)

entry_at :
    (k : Text) (m : Map Text (Option PolicyProfile))
    → AllValues IsValidEntry m
    → (profile_at k m ≡ none) ⊎ ValidAt k m
unfolding profile_at
entry_at k m all = elim (Option-cases (lookup k m)) [
  | inl missing ↦ inl (rw (profile_at, missing) refl)
  | inr (o, h) ↦ inr (entry_of k m o (lookup-AllValues IsValidEntry k o m all h) h)
]

default_of :
    (m : Map Text (Option PolicyProfile))
    → ValidAt default_name m
    → IsValidProfile (profile_or_default m)
unfolding profile_or_default ValidAt
default_of m (p, found, valid) = rw (profile_or_default, found) valid

resolved :
    (e : Engine) (raw : Text)
    → AllValues IsValidEntry e.profiles
    → Has default_name e.profiles
    → IsValidProfile (resolve_profile e raw)
unfolding resolve_profile ValidAt
resolved e raw all (o, h) =
    let at_default = default_of e.profiles (
      entry_of default_name e.profiles o
        (lookup-AllValues IsValidEntry default_name o e.profiles all h) h) in
    elim (Bool-cases (is_empty (trim_space raw))) [
      | inl blank ↦ rw (resolve_profile, blank) at_default
      | inr named ↦ elim (entry_at (trim_space raw) e.profiles all) [
        | inl missing ↦ rw (resolve_profile, named, missing) at_default
        | inr (p, found, valid) ↦ rw (resolve_profile, named, found) valid
      ]
    ]

replaced :
    (e : Engine) (m : Map Text (Option PolicyProfile)) (raw : Text)
    → AllValues IsValidEntry m
    → Has default_name m
    → IsValidProfile (resolve_profile (replace_profiles e m) raw)
unfolding replace_profiles with_default trim_space
replaced e m raw all has =
    let (o, kept) = copy_profiles-Has default_name m [] refl has in
    let same : (replace_profiles e m).profiles ≡ copy_profiles m [] =
      rw (replace_profiles, with_default, kept) refl in
    resolved (replace_profiles e m) raw (rw (same) (copy_profiles-All m [] all tt))
      (o, rw (same) kept)

required_default-Has :
    (m : Map Text (Option PolicyProfile)) (p : PolicyProfile)
    → required_default m ≡ ok p
    → Has default_name m
unfolding required_default
required_default-Has m p h = elim (Option-cases (lookup default_name m)) [
  | inl missing ↦ ground arith
  | inr found ↦ found
]

-- After an update that is taken, every name that a call can ask for, a blank or an unknown one too,
-- is judged by a profile with a positive rate and burst, the mode enforce or audit, and lists of
-- trimmed names that are not blank.
pub handle_policies-IsValidProfile :
    (rates : Rates) (saving : Saving) (e e' : Engine)
    (backend backend' : Option (MemoryBackend rates)) (ps : List PolicyProfile) (raw : Text)
    → handle_policies rates saving (some e) backend ps ≡ (some e', backend', ok tt)
    → IsValidProfile (resolve_profile e' raw)
unfolding handle_policies
handle_policies-IsValidProfile rates saving e e' backend backend' ps raw h =
    elim (Bool-cases (is_empty ps)) [
      | inl none_sent ↦ ground arith
      | inr some_sent ↦ elim (Result-cases (normalize_profiles ps [])) [
        | inr (refusal, refused) ↦ ground arith
        | inl (m, normal) ↦ elim (Result-cases (required_default m)) [
          | inr (refusal, refused) ↦ ground arith
          | inl (p, held) ↦
              let same : replace_profiles e m ≡ e' = ground arith in
              subst (λ x. IsValidProfile (resolve_profile x raw)) same
                (replaced e m raw (normalize_profiles-All ps [] m tt normal)
                  (required_default-Has m p held))
        ]
      ]
    ]
