-- ===== src/Registration/Index/Content/Lookups.antt =====
-- What the invariant means for a lookup: the servers found are routable.
use mathlib.Core.Path.{subst⁻¹}
use cruvero_mcp_gateway.Prelude.{
  refl, ◌≡◌, ◌∙◌, ◌==◌, if◌then◌else◌, List, [], ◌∷◌, arith, is_empty, Bool-cases, inl, inr, All,
}
use cruvero_mcp_gateway.Prelude.Texts.{Text, text_eq, trim_space}
use cruvero_mcp_gateway.Prelude.Maps.{Map, lookup}
use cruvero_mcp_gateway.Types.{ServerRecord}
use cruvero_mcp_gateway.Registration.Index.{CapabilityIndex, servers_at, lookup_tool}
use cruvero_mcp_gateway.Registration.Index.Content.Invariant.{IsIndex, IsEntry, Routable}

servers_at-cons :
    (key k : Text) (ss : List ServerRecord) (m : Map Text (List ServerRecord))
    → servers_at key ((k, ss) ∷ m) ≡ (if k == key then ss else servers_at key m)
unfolding servers_at lookup
servers_at-cons key k ss m = ground arith

servers_at-Routable :
    (key : Text) (m : Map Text (List ServerRecord))
    → All IsEntry m
    → All Routable (servers_at key m)
unfolding servers_at lookup
servers_at-Routable key [] a = tt
servers_at-Routable key ((k, ss) ∷ m) ((t, n, x, r, d), a) = elim (Bool-cases (k == key)) [
  | inl e ↦ subst⁻¹ (All Routable) (servers_at-cons key k ss m ∙ rw e refl) r
  | inr e ↦
      subst⁻¹ (All Routable) (servers_at-cons key k ss m ∙ rw e refl) (servers_at-Routable key m a)
]

pub lookup_tool-Routable :
    (i : CapabilityIndex) (name : Text) → IsIndex i → All Routable (lookup_tool i name)
unfolding lookup_tool
lookup_tool-Routable i name v =
    let key = trim_space name in
    elim (Bool-cases (is_empty key)) [
      | inl e ↦ subst⁻¹ (All Routable) {y = []} (rw e refl) tt
      | inr e ↦
          subst⁻¹ (All Routable) {y = servers_at key i.tools} (rw e refl)
            (servers_at-Routable key i.tools v.good_tools.0)
    ]
