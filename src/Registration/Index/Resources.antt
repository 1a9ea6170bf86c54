-- ===== src/Registration/Index/Resources.antt =====
-- A resource is served by the servers of its longest prefix.
use cruvero_mcp_gateway.Prelude.{
  ◌≡◌, ◌≤◌, ◌⊎◌, refl, true, false, List, [], ◌∷◌, some, arith, ◌==◌, if◌then◌else◌, is_empty,
  Bool-cases, inl, inr, eq_iff, All, keep, length, ◌∙◌, sym,
}
use cruvero_mcp_gateway.Prelude.Texts.{Text, text_eq, trim_space, has_prefix}
use cruvero_mcp_gateway.Prelude.Maps.{Map, lookup}
use cruvero_mcp_gateway.Types.{ServerRecord}
use cruvero_mcp_gateway.Registration.Index.{
  CapabilityIndex, servers_at, better, longest_match, lookup_resource,
}

abbrev Table : Type 0
Table = Map Text (List ServerRecord)

-- The entries whose key is a prefix of the target.
abbrev pub candidates : Text → Table → Table
candidates target m = keep (λ e. has_prefix target e.0) m

better_grows : (target best key : Text) → length best ≤ length (better target best key)
unfolding better
better_grows target best key = ground arith

better_covers :
    (target best key : Text)
    → has_prefix target key ≡ true
    → length key ≤ length (better target best key)
unfolding better
better_covers target best key h = ground arith

better-cases :
    (target best key : Text)
    → (better target best key ≡ best)
      ⊎ ((better target best key ≡ key) × (has_prefix target key ≡ true))
unfolding better
better-cases target best key = ground arith

longest_match_grows :
    (target best : Text) (m : Table) → length best ≤ length (longest_match target best m)
unfolding longest_match
longest_match_grows target best [] = omega arith
longest_match_grows target best ((k, v) ∷ m) =
    omega (arith, better_grows target best k, longest_match_grows target (better target best k) m)

longest_match_bounds :
    (target best : Text) (m : Table)
    → All (λ e. length e.0 ≤ length (longest_match target best m)) (candidates target m)
unfolding longest_match keep
longest_match_bounds target best [] = tt
longest_match_bounds target best ((k, v) ∷ m) =
    let rest = longest_match_bounds target (better target best k) m in
    elim (Bool-cases (has_prefix target k)) [
      | inl e ↦ rw e (
        omega (
          arith,
          better_covers target best k e,
          longest_match_grows target (better target best k) m,
        ),
        rest,
      )
      | inr e ↦ rw e rest
    ]

abbrev Found : Text → Text → Table → Type 0
Found target key m =
    (ss : List ServerRecord) × (lookup key m ≡ some ss) × (has_prefix target key ≡ true)

Found-cons :
    (target key k : Text) (v : List ServerRecord) (m : Table)
    → Found target key m
    → Found target key ((k, v) ∷ m)
unfolding lookup
Found-cons target key k v m (ss, e, p) = elim (Bool-cases (k == key)) [
  | inl same ↦ (v, rw same, p)
  | inr other ↦ (ss, rw other e, p)
]

Found-here :
    (target key k : Text) (v : List ServerRecord) (m : Table)
    → k ≡ key
    → has_prefix target key ≡ true
    → Found target key ((k, v) ∷ m)
unfolding lookup
Found-here target key k v m e p = (v, ground (arith, eq_iff k key), p)

longest_match-Found :
    (target best : Text) (m : Table)
    → (longest_match target best m ≡ best) ⊎ Found target (longest_match target best m) m
unfolding longest_match
longest_match-Found target best [] = inl refl
longest_match-Found target best ((k, v) ∷ m) =
    elim (longest_match-Found target (better target best k) m) [
      | inr found ↦ inr (Found-cons target _ k v m found)
      | inl kept ↦ elim (better-cases target best k) [
        | inl old ↦ inl (kept ∙ old)
        | inr (new, p) ↦ inr (Found-here target _ k v m (sym (kept ∙ new)) (rw (kept ∙ new) p))
      ]
    ]

unprefixed :
    (target best key : Text) → has_prefix target key ≡ false → better target best key ≡ best
unfolding better
unprefixed target best key h = ground arith

empty_target : (best key : Text) → has_prefix [] key ≡ true → better [] best key ≡ best
unfolding better has_prefix
empty_target best [] h = ground arith
empty_target best (c ∷ key) h = cc

longest_match_empty : (best : Text) (m : Table) → longest_match [] best m ≡ best
unfolding longest_match
longest_match_empty best [] = refl
longest_match_empty best ((k, v) ∷ m) = elim (Bool-cases (has_prefix [] k)) [
  | inl e ↦ rw (empty_target best k e) (longest_match_empty best m)
  | inr e ↦ rw (unprefixed [] best k e) (longest_match_empty best m)
]

-- The key that the loop settles on, and what the lookup makes of it.
settled :
    (i : CapabilityIndex) (prefix : Text)
    → let best = longest_match (trim_space prefix) [] i.resources in
      lookup_resource i prefix ≡ (if is_empty best then [] else servers_at best i.resources)
unfolding lookup_resource
settled i prefix = ground (arith, longest_match_empty [] i.resources)

-- The outcome of a lookup of a trimmed target, by the servers that it returns.
abbrev pub Longest : Text → Table → List ServerRecord → Type 0
Longest target m servers =
    ((servers ≡ []) × All (λ e. length e.0 ≤ 0) (candidates target m))
    ⊎ ((key : Text) × (lookup key m ≡ some servers)
        × (has_prefix target key ≡ true)
        × All (λ e. length e.0 ≤ length key) (candidates target m))

Longest-of_best :
    (target best : Text) (m : Table) (servers : List ServerRecord)
    → (servers ≡ (if is_empty best then [] else servers_at best m))
    → All (λ e. length e.0 ≤ length best) (candidates target m)
    → (best ≡ []) ⊎ Found target best m
    → Longest target m servers
unfolding servers_at
Longest-of_best target [] m servers e b f = inl (e, b)
Longest-of_best target (c ∷ s) m servers e b (inl f) = cc
Longest-of_best target (c ∷ s) m servers e b (inr (ss, l, p)) = inr ((c ∷ s), ground arith, p, b)

-- A lookup either finds nothing, and then no key of the index but an empty one is a prefix of the
-- trimmed target; or it returns the servers of a key that is a prefix of it, and no key of the
-- index that is a prefix of it is longer.
lookup_resource-Longest :
    (i : CapabilityIndex) (prefix : Text)
    → Longest (trim_space prefix) i.resources (lookup_resource i prefix)
lookup_resource-Longest i prefix =
    Longest-of_best (trim_space prefix) _ i.resources (lookup_resource i prefix) (settled i prefix)
      (longest_match_bounds (trim_space prefix) [] i.resources)
      (longest_match-Found (trim_space prefix) [] i.resources)
