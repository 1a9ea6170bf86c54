-- ===== src/Events/Servers/Admission.antt =====
-- internal/events/handlers.go with internal/identity/spiffe.go: which SPIFFE ids may register after
-- an update of the prefixes.
use mathlib.Core.Path.{subst}
use cruvero_mcp_gateway.Prelude.{
  ◌&&◌, ◌==◌, eq_self, ◌≡◌, refl, ◌⊎◌, inl, inr, Bool, not, ◌||◌, List, [], ◌∷◌, is_empty, any, ok,
  err, require, ◌>>=◌, arith, Bool-cases, Result-cases,
}
use cruvero_mcp_gateway.Prelude.Texts.{
  codes, text_eq, Text, trim_space, trim_space_idem, has_prefix,
}
use cruvero_mcp_gateway.Identity.{
  Urls, not_allowed, parse_spiffe_id, prefix_allows, validate_spiffe_id,
}
use cruvero_mcp_gateway.Events.Settings.{Saving}
use cruvero_mcp_gateway.Events.Servers.{
  bad_prefix, spiffe_scheme, allow_list_of, handle_servers, true, false,
}

-- A prefix of a message counts unless it is blank.
abbrev pub is_named : Text → Bool
is_named prefix = not (is_empty (trim_space prefix))

-- What the list made of a message has in common with it.
abbrev Represents : Urls → List Text → List Text → Type 0
Represents urls l prefixes =
    (is_empty l ≡ not (any is_named prefixes))
    × ((id : Text) → prefix_allows urls id l ≡ prefix_allows urls id prefixes)

allow_list_of-Represents :
    (urls : Urls) (prefixes l : List Text)
    → allow_list_of prefixes ≡ ok l
    → Represents urls l prefixes
unfolding allow_list_of any prefix_allows
allow_list_of-Represents urls [] l h =
    let e : [] ≡ l = ground arith in subst (λ x. Represents urls x []) e (refl, λ id. refl)
allow_list_of-Represents urls (raw ∷ rest) l h = elim (Bool-cases (is_empty (trim_space raw))) [
  | inl blank ↦
      let (empty, allows) = allow_list_of-Represents urls rest l (ground arith) in
      (ground arith, λ id. ground (arith, allows id))
  | inr named ↦ elim (Bool-cases (has_prefix (trim_space raw) spiffe_scheme)) [
    | inr other_scheme ↦ ground arith
    | inl spiffe ↦ elim (Result-cases (allow_list_of rest)) [
      | inr (e, refused) ↦ ground arith
      | inl (m, kept) ↦
          let (empty, allows) = allow_list_of-Represents urls rest m kept in
          let e : trim_space raw ∷ m ≡ l = ground arith in
          subst (λ x. Represents urls x (raw ∷ rest)) e
            (ground arith, λ id. ground (arith, allows id, trim_space_idem raw))
    ]
  ]
]

-- A prefix that counts and is not of a SPIFFE id.
abbrev pub is_foreign : Text → Bool
is_foreign prefix = is_named prefix && not (has_prefix (trim_space prefix) (codes "spiffe://"))

allow_list_of_accepts :
    (prefixes l : List Text) → allow_list_of prefixes ≡ ok l → any is_foreign prefixes ≡ false
unfolding allow_list_of any
allow_list_of_accepts [] l h = refl
allow_list_of_accepts (raw ∷ rest) l h = elim (Result-cases (allow_list_of rest)) [
  | inl (m, kept) ↦ ground (arith, allow_list_of_accepts rest m kept)
  | inr (e, refused) ↦ ground arith
]

-- The prefix that is refused is one of the message's.
allow_list_of_refuses :
    (prefixes : List Text) (p : Text)
    → allow_list_of prefixes ≡ err p
    → any (λ raw. is_foreign raw && trim_space raw == p) prefixes ≡ true
unfolding allow_list_of any
allow_list_of_refuses [] p h = ground arith
allow_list_of_refuses (raw ∷ rest) p h = elim (Result-cases (allow_list_of rest)) [
  | inl (m, kept) ↦ ground (arith, eq_self p)
  | inr (e, refused) ↦ ground (arith, allow_list_of_refuses rest e refused, eq_self p)
]

-- A message is refused, with one of its prefixes that is neither blank nor of a SPIFFE id, and
-- leaves the allow list as it is, exactly if it has such a prefix. After any other message, a
-- well-formed id may register if it has one of the message's prefixes, without the blank ones and
-- the blanks around them, or if no prefix is left.
pub handle_servers_admits :
    (urls : Urls) (saving : Saving) (before prefixes : List Text) (id : Text)
    → let (after, result) = handle_servers saving before prefixes in
      ((p : Text) × (after ≡ before)
        × (result ≡ err (bad_prefix p))
        × (any (λ raw. is_foreign raw && trim_space raw == p) prefixes ≡ true))
      ⊎ ((any is_foreign prefixes ≡ false)
          × (validate_spiffe_id urls id after ≡ (
              parse_spiffe_id urls id >>= λ parts.
              require (not (any is_named prefixes) || prefix_allows urls id prefixes) not_allowed)))
unfolding handle_servers validate_spiffe_id parse_spiffe_id
handle_servers_admits urls saving before prefixes id =
    elim (Result-cases (allow_list_of prefixes)) [
      | inr (p, refused) ↦ inl (
        p,
        rw (handle_servers, refused) refl,
        rw (handle_servers, refused) refl,
        allow_list_of_refuses prefixes p refused,
      )
      | inl (l, kept) ↦
          let (empty, allows) = allow_list_of-Represents urls prefixes l kept in
          inr (
            allow_list_of_accepts prefixes l kept,
            rw (handle_servers, kept, validate_spiffe_id, empty, allows id) refl,
          )
    ]
