-- ===== src/Registration/Request.antt =====
-- internal/registration/types.go: the payload of a registration and its validation. IP addresses
-- are package net's, so a parameter.
pub mod Validity
use cruvero_mcp_gateway.Prelude.{
  ℕ, ◌-◌, Bool, false, not, ◌&&◌, ◌||◌, List, [], ◌∷◌, Option, none, some, leb, ltb, nat_beq, ◌==◌,
  if◌then◌else◌, is_empty, length, any, take, drop, contains, Result, ok, require, ◌>>◌,
}
use cruvero_mcp_gateway.Prelude.Int.{ℤ, pos, negsuc}
use cruvero_mcp_gateway.Prelude.Texts.{
  Text, text_eq, codes, trim_space, to_lower, has_prefix, has_suffix, trim_right_of,
}
use cruvero_mcp_gateway.Types.{Capability}

pub record ListenConfig : Type 0 where
  pub host : Text
  pub port : ℤ
  pub protocol : Text

-- The labels are not read.
pub record RegistrationRequest : Type 0 where
  pub service_name : Text
  pub version : Text
  pub listen : ListenConfig
  pub capabilities : Capability

pub data RequestError : Type 0 where
  bad_service_name missing_host metadata_host loopback_host unspecified_host localhost :
      RequestError
  bad_port bad_protocol no_capability empty_tool empty_resource empty_prompt : RequestError

-- Package net's addresses.
pub record Ips : Type 1 where
  pub Ip : Type 0
  pub parse_ip : Text → Option Ip
  pub to4 : Ip → Option Ip
  pub is_loopback : Ip → Bool
  pub is_link_local : Ip → Bool
  pub is_unspecified : Ip → Bool
  pub same_ip : Ip → Ip → Bool

-- [a-zA-Z0-9]
unfoldable pub is_alnum : ℕ → Bool
is_alnum c = (leb b'a' c && leb c b'z') || (leb b'A' c && leb c b'Z') || (leb b'0' c && leb c b'9')

-- [a-zA-Z0-9_.-]
unfoldable pub is_name_char : ℕ → Bool
unfolding is_alnum
is_name_char c = is_alnum c || nat_beq c b'_' || nat_beq c b'.' || nat_beq c b'-'

-- serviceNamePattern
unfoldable pub matches_service_name : Text → Bool
unfolding is_alnum is_name_char any
matches_service_name [] = false
matches_service_name (c ∷ s) =
    is_alnum c && leb (length s) 62 && not (any (λ d. not (is_name_char d)) s)

unfoldable pub has_blank : List Text → Bool
unfolding any
has_blank names = any (λ name. is_empty (trim_space name)) names

abbrev pub metadata_ip : Text
metadata_ip = codes "169.254.169.254"

abbrev pub metadata_hosts : List Text
metadata_hosts = metadata_ip ∷ codes "metadata.google.internal" ∷ codes "metadata.goog" ∷ []

-- [host] of an IPv6 address without its brackets, and a host without its dots at the end.
unfoldable pub bare_host : Text → Text
unfolding has_prefix has_suffix trim_right_of
bare_host host =
    let inner =
      if ltb 2 (length host) && has_prefix host (codes "[") && has_suffix host (codes "]")
      then take (length host - 2) (drop 1 host)
      else host in
    trim_right_of (nat_beq b'.') inner

unfoldable pub is_port : ℤ → Bool
is_port (pos n) = leb 1 n && leb n 65535
is_port (negsuc n) = false

unfoldable pub is_protocol : Text → Bool
is_protocol raw =
    let protocol = trim_space (to_lower raw) in
    is_empty protocol || protocol == codes "http" || protocol == codes "https"

module _ (ips : Ips) where
  unfoldable pub is_metadata_ip : ips.Ip → Bool
  is_metadata_ip ip = elim (ips.parse_ip metadata_ip) [
    | none ↦ false
    | some metadata ↦ ips.same_ip ip metadata
  ]

  unfoldable pub validate_ip : ips.Ip → Result RequestError (Unit {0})
  unfolding is_metadata_ip
  validate_ip raw =
      let ip : ips.Ip = elim (ips.to4 raw) [ none ↦ raw | some v4 ↦ v4 ] in
      require (not (ips.is_loopback ip || ips.is_link_local ip)) loopback_host
      >> require (not (ips.is_unspecified ip)) unspecified_host
      >> require (not (is_metadata_ip ip)) metadata_host

  unfoldable pub validate_host : Text → Result RequestError (Unit {0})
  unfolding bare_host validate_ip contains
  validate_host raw =
      let host = bare_host raw in
      let name = to_lower host in
      require (not (contains metadata_hosts name)) metadata_host
      >> elim (ips.parse_ip host) [ none ↦ ok tt | some ip ↦ validate_ip ip ]
      >> require (not (name == codes "localhost" || has_suffix name (codes ".localhost"))) localhost

  unfoldable pub validate : RegistrationRequest → Result RequestError (Unit {0})
  unfolding matches_service_name validate_host is_port is_protocol has_blank
  validate r =
      let host = trim_space r.listen.host in
      let caps = r.capabilities in
      require (matches_service_name (trim_space r.service_name)) bad_service_name
      >> require (not (is_empty host)) missing_host
      >> validate_host host
      >> require (is_port r.listen.port) bad_port
      >> require (is_protocol r.listen.protocol) bad_protocol
      >> require (not (is_empty caps.tools && is_empty caps.resources && is_empty caps.prompts))
          no_capability
      >> require (not (has_blank caps.tools)) empty_tool
      >> require (not (has_blank caps.resources)) empty_resource
      >> require (not (has_blank caps.prompts)) empty_prompt
