-- ===== src/Registration/Request/Validity.antt =====
-- internal/registration/types.go: what a registration that is accepted satisfies.
use cruvero_mcp_gateway.Types.{Capability}
use cruvero_mcp_gateway.Prelude.{
  ◌⊎◌, inl, inr, Bool, List, All, any, not, ◌&&◌, is_empty, Bool-cases, eq_iff, ℕ, ◌≤◌, ◌≡◌, refl,
  true, false, Option, none, some, ◌==◌, length, contains, Result, ok, require-true, then_ok, arith,
  [], ◌∷◌,
}
use cruvero_mcp_gateway.Prelude.Int.{ℤ, pos, negsuc}
use cruvero_mcp_gateway.Prelude.Texts.{has_suffix, Text, text_eq, codes, trim_space, to_lower}
use cruvero_mcp_gateway.Registration.Request.{
  RegistrationRequest, RequestError, Ips, matches_service_name, bare_host, is_port, metadata_hosts,
  is_alnum, is_name_char, has_blank, is_protocol, validate, validate_host, validate_ip,
  is_metadata_ip,
}

-- A port of TCP.
abbrev pub IsPort : ℤ → Type 0
IsPort z = (n : ℕ) × (z ≡ pos n) × (1 ≤ n) × (n ≤ 65535)

-- The address that an IPv6 form of an IPv4 address stands for.
abbrev pub unmapped : (ips : Ips) → ips.Ip → ips.Ip
unmapped ips raw = elim (ips.to4 raw) [ none ↦ raw | some v4 ↦ v4 ]

abbrev pub IsOutside : (ips : Ips) → ips.Ip → Type 0
IsOutside ips ip =
    (ips.is_loopback ip ≡ false)
    × (ips.is_link_local ip ≡ false)
    × (ips.is_unspecified ip ≡ false)
    × (is_metadata_ip ips ip ≡ false)

-- The host is no cloud metadata endpoint, not localhost, and no address of the gateway's own host.
abbrev pub IsOutsideHost : Ips → Text → Type 0
IsOutsideHost ips raw =
    (contains metadata_hosts (to_lower (bare_host raw)) ≡ false)
    × ((to_lower (bare_host raw) == codes "localhost") ≡ false)
    × (has_suffix (to_lower (bare_host raw)) (codes ".localhost") ≡ false)
    × ((ip : ips.Ip) → ips.parse_ip (bare_host raw) ≡ some ip → IsOutside ips (unmapped ips ip))

abbrev pub IsAlnum : ℕ → Type 0
IsAlnum c = ((97 ≤ c) × (c ≤ 122)) ⊎ ((65 ≤ c) × (c ≤ 90)) ⊎ ((48 ≤ c) × (c ≤ 57))

-- A letter, a digit, an underscore, a dot or a dash.
abbrev pub IsNameChar : ℕ → Type 0
IsNameChar c = IsAlnum c ⊎ (c ≡ 95) ⊎ (c ≡ 46) ⊎ (c ≡ 45)

-- One to 63 characters, the first of them a letter or a digit.
abbrev pub IsServiceName : Text → Type 0
IsServiceName name =
    (c : ℕ) × (s : Text) × (name ≡ c ∷ s) × IsAlnum c × All IsNameChar s × (length s ≤ 62)

abbrev pub IsProtocol : Text → Type 0
IsProtocol protocol = (protocol ≡ codes "") ⊎ (protocol ≡ codes "http") ⊎ (protocol ≡ codes "https")

abbrev pub IsNamed : Text → Type 0
IsNamed name = is_empty (trim_space name) ≡ false

-- Something is offered, and nothing under a blank name.
abbrev pub IsOffer : Capability → Type 0
IsOffer caps =
    ((is_empty caps.tools ≡ false)
      ⊎ (is_empty caps.resources ≡ false)
      ⊎ (is_empty caps.prompts ≡ false))
    × All IsNamed caps.tools
    × All IsNamed caps.resources
    × All IsNamed caps.prompts

abbrev pub IsValidRequest : Ips → RegistrationRequest → Type 0
IsValidRequest ips r =
    IsServiceName (trim_space r.service_name)
    × (is_empty (trim_space r.listen.host) ≡ false)
    × IsOutsideHost ips (trim_space r.listen.host)
    × IsPort r.listen.port
    × IsProtocol (trim_space (to_lower r.listen.protocol))
    × IsOffer r.capabilities

is_port-IsPort : (z : ℤ) → is_port z ≡ true → IsPort z
unfolding is_port
is_port-IsPort (pos n) h = (n, refl, ground arith, ground arith)
is_port-IsPort (negsuc n) h = ground arith

is_alnum-IsAlnum : (c : ℕ) → is_alnum c ≡ true → IsAlnum c
unfolding is_alnum
is_alnum-IsAlnum c h = ground arith

is_name_char-IsNameChar : (c : ℕ) → is_name_char c ≡ true → IsNameChar c
unfolding is_name_char
is_name_char-IsNameChar c h = elim (Bool-cases (is_alnum c)) [
  | inl e ↦ inl (is_alnum-IsAlnum c e)
  | inr e ↦ inr (ground arith)
]

name_chars : (s : Text) → any (λ d. not (is_name_char d)) s ≡ false → All IsNameChar s
unfolding any
name_chars [] h = tt
name_chars (c ∷ s) h = (is_name_char-IsNameChar c (ground arith), name_chars s (ground arith))

matches_service_name-IsServiceName : (s : Text) → matches_service_name s ≡ true → IsServiceName s
unfolding matches_service_name
matches_service_name-IsServiceName [] h = ground arith
matches_service_name-IsServiceName (c ∷ s) h =
    (c, s, refl, is_alnum-IsAlnum c (ground arith), name_chars s (ground arith), ground arith)

is_empty-eq : (s : Text) → is_empty s ≡ true → s ≡ []
is_empty-eq [] h = refl
is_empty-eq (c ∷ s) h = ground arith

is_protocol-IsProtocol :
    (raw : Text) → is_protocol raw ≡ true → IsProtocol (trim_space (to_lower raw))
unfolding is_protocol
is_protocol-IsProtocol raw h =
    let protocol = trim_space (to_lower raw) in
    elim (Bool-cases (is_empty protocol)) [
      | inl e ↦ inl (is_empty-eq protocol e)
      | inr e ↦ elim (Bool-cases (protocol == codes "http")) [
        | inl http ↦ inr (inl (ground (arith, eq_iff protocol (codes "http"))))
        | inr other ↦ inr (inr (ground (arith, eq_iff protocol (codes "https"))))
      ]
    ]

has_blank_none : (names : List Text) → has_blank names ≡ false → All IsNamed names
unfolding has_blank any
has_blank_none [] h = tt
has_blank_none (name ∷ names) h = (ground arith, has_blank_none names (ground arith))

some_offer :
    (a b c : List Text)
    → not (is_empty a && is_empty b && is_empty c) ≡ true
    → (is_empty a ≡ false) ⊎ (is_empty b ≡ false) ⊎ (is_empty c ≡ false)
some_offer a b c h = ground arith

validate_ip-IsOutside :
    (ips : Ips) (raw : ips.Ip) → validate_ip ips raw ≡ ok tt → IsOutside ips (unmapped ips raw)
unfolding validate_ip
validate_ip-IsOutside ips raw h = ground arith

abbrev check_parsed : (ips : Ips) → Option ips.Ip → Result RequestError (Unit {0})
check_parsed ips none = ok tt
check_parsed ips (some ip) = validate_ip ips ip

parsed_valid :
    (ips : Ips) (raw : Text) (ip : ips.Ip)
    → ips.parse_ip (bare_host raw) ≡ some ip
    → check_parsed ips (ips.parse_ip (bare_host raw)) ≡ ok tt
    → validate_ip ips ip ≡ ok tt
parsed_valid ips raw ip parsed h = ground arith

host_parts :
    (ips : Ips) (raw : Text)
    → validate_host ips raw ≡ ok tt
    → (contains metadata_hosts (to_lower (bare_host raw)) ≡ false)
      × ((to_lower (bare_host raw) == codes "localhost") ≡ false)
      × (has_suffix (to_lower (bare_host raw)) (codes ".localhost") ≡ false)
      × (check_parsed ips (ips.parse_ip (bare_host raw)) ≡ ok tt)
unfolding validate_host
host_parts ips raw h = ground arith

validate_host-IsOutsideHost :
    (ips : Ips) (raw : Text) → validate_host ips raw ≡ ok tt → IsOutsideHost ips raw
unfolding validate_host
validate_host-IsOutsideHost ips raw h =
    let (listed, local, under, parsed) = host_parts ips raw h in
    (
      listed,
      local,
      under,
      λ ip found. validate_ip-IsOutside ips ip (parsed_valid ips raw ip found parsed),
    )

false_from : (b : Bool) → not b ≡ true → b ≡ false
false_from b h = ground arith

-- A registration that passes `Validate` has a service name of one to 63 characters that begins with
-- a letter or a digit and has only letters, digits, underscores, dots and dashes; a host that is
-- not blank, no cloud metadata endpoint, neither localhost nor below it, and no loopback,
-- link-local, unspecified or metadata address; a port from 1 to 65535; the protocol http, https or
-- none; and at least one tool, resource or prompt, none of them with a blank name.
pub validate-IsValidRequest :
    (ips : Ips) (r : RegistrationRequest) → validate ips r ≡ ok tt → IsValidRequest ips r
unfolding validate
validate-IsValidRequest ips r h =
    let caps = r.capabilities in
    let (h1, prompts) = then_ok _ _ _ h in
    let (h2, resources) = then_ok _ _ _ h1 in
    let (h3, tools) = then_ok _ _ _ h2 in
    let (h4, offer) = then_ok _ _ _ h3 in
    let (h5, protocol) = then_ok _ _ _ h4 in
    let (h6, port) = then_ok _ _ _ h5 in
    let (h7, outside) = then_ok _ _ _ h6 in
    let (name, host) = then_ok _ _ _ h7 in
    (
      matches_service_name-IsServiceName (trim_space r.service_name) (require-true _ _ _ name),
      false_from (is_empty (trim_space r.listen.host)) (require-true _ _ _ host),
      validate_host-IsOutsideHost ips (trim_space r.listen.host) outside,
      is_port-IsPort r.listen.port (require-true _ _ _ port),
      is_protocol-IsProtocol r.listen.protocol (require-true _ _ _ protocol),
      (
        some_offer caps.tools caps.resources caps.prompts (require-true _ _ _ offer),
        has_blank_none caps.tools (false_from (has_blank caps.tools) (require-true _ _ _ tools)),
        has_blank_none caps.resources
            (false_from (has_blank caps.resources) (require-true _ _ _ resources)),
        has_blank_none caps.prompts
            (false_from (has_blank caps.prompts) (require-true _ _ _ prompts)),
      ),
    )
