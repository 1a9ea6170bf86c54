-- ===== src/Identity.antt =====
-- internal/identity: who a caller is, and the SPIFFE ids that may register (context.go, spiffe.go),
-- with the scope checks of internal/auth/rbac.go. Certificates and the context are left out.
pub mod Callers
use cruvero_mcp_gateway.Prelude.{
  Bool, true, false, not, ◌||◌, List, Option, none, some, ◌==◌, if◌then◌else◌, is_empty, any,
  contains, Result, ok, err, require, ◌>>=◌, ◌>>◌,
}
use cruvero_mcp_gateway.Prelude.Texts.{
  Text, text_eq, codes, trim_space, equal_fold, has_prefix, trim_prefix, contains_text,
}
use cruvero_mcp_gateway.Prelude.Maps.{Map}

pub data IdentityType : Type 0 where
  mtls apikey oidc : IdentityType
  other_type : Text → IdentityType

pub record Identity : Type 0 where
  pub kind : IdentityType
  pub id : Text
  pub scopes : List Text
  pub metadata : Map Text Text

abbrev pub scope_admin : Text
scope_admin = codes "admin"

unfoldable pub has_scope : Option Identity → Text → Bool
unfolding contains
has_scope none scope = false
has_scope (some who) scope = contains who.scopes scope

-- `RequireAnyScope`: whether the request goes on.
unfoldable pub require_any_scope : List Text → Option Identity → Bool
unfolding any has_scope
require_any_scope scopes who = if is_empty scopes then true else any (has_scope who) scopes

abbrev pub is_mtls : Option Identity → Bool
is_mtls none = false
is_mtls (some who) = elim who.kind [ mtls ↦ true | _ ↦ false ]

-- What package net/url makes of a text, and path.Clean.
pub record Url : Type 0 where
  pub scheme : Text
  pub host : Text
  pub escaped_path : Text

pub record Urls : Type 0 where
  pub parse : Text → Option Url
  pub clean : Text → Text

pub data SpiffeError : Type 0 where
  empty_id bad_url bad_scheme missing_trust_domain missing_path bad_path not_allowed : SpiffeError

module _ (urls : Urls) where
  -- The trust domain and the workload.
  unfoldable pub parse_spiffe_id : Text → Result SpiffeError (Text × Text)
  parse_spiffe_id raw =
      require (not (is_empty (trim_space raw))) empty_id >> elim (urls.parse raw) [
        | none ↦ err bad_url
        | some url ↦
            let path = trim_space url.escaped_path in
            let cleaned = urls.clean path in
            let workload = trim_prefix cleaned (codes "/") in
            require (equal_fold url.scheme (codes "spiffe")) bad_scheme
            >> require (not (is_empty (trim_space url.host))) missing_trust_domain
            >> require (not (is_empty path || path == codes "/")) missing_path
            >> require
                (not (
                  cleaned == codes "."
                  || cleaned == codes "/"
                  || contains_text cleaned (codes "..")))
                bad_path
            >> require (not (is_empty workload)) missing_path
            >> ok (url.host, workload)
      ]

  -- A prefix of the list that is not blank and that the id has.
  unfoldable pub prefix_allows : Text → List Text → Bool
  unfolding any has_prefix
  prefix_allows id prefixes =
      any
        (λ prefix.
          if is_empty (trim_space prefix) then false else has_prefix id (trim_space prefix))
        prefixes

  unfoldable pub validate_spiffe_id : Text → List Text → Result SpiffeError (Unit {0})
  unfolding parse_spiffe_id prefix_allows
  validate_spiffe_id id prefixes = parse_spiffe_id id >>= λ parts.
      require (is_empty prefixes || prefix_allows id prefixes) not_allowed
