-- ===== src/Policy/Cache/Coherence.antt =====
-- What the cache answers, and when it agrees with the store behind it.
use cruvero_mcp_gateway.Prelude.{
  ℕ, ◌+◌, ◌≡◌, Option, none, some, arith, ltb, ◌==◌, if◌then◌else◌, eq_iff, false,
}
use cruvero_mcp_gateway.Prelude.Texts.{Text, text_eq}
use cruvero_mcp_gateway.Prelude.Maps.{lookup, lookup-insert, lookup-delete}
use cruvero_mcp_gateway.Types.{ToolClassification}
use cruvero_mcp_gateway.Policy.Cache.{ClassificationCache, get, set, invalidate, Entry}

-- What `Set` stores is found until its time is up, and then no more; other tools are not affected.
get-set :
    (c : ClassificationCache) (name asked : Text) (tc : ToolClassification) (now later : ℕ)
    → (get (set c name tc now) asked later).0 ≡ (
        if name == asked
        then (if ltb (now + c.ttl) later then none else some tc)
        else (get c asked later).0)
unfolding get set
get-set c name asked tc now later = ground (
  arith,
  lookup-insert name asked (record { classification = tc; expires_at = now + c.ttl }) c.entries,
)

-- Each classification in the cache, expired or not, is the one that the store has.
pub record IsCoherent (store : Text → Option ToolClassification) (c : ClassificationCache)
    : Type 0 where
  pub agrees :
      (name : Text) (e : Entry)
      → lookup name c.entries ≡ some e
      → store name ≡ some e.classification

module _ {store : Text → Option ToolClassification} where
  pub get-IsCoherent :
      (c : ClassificationCache) (name : Text) (now : ℕ)
      → IsCoherent store c
      → IsCoherent store (get c name now).1
  unfolding get
  get-IsCoherent c name now v = record {
    agrees = λ asked e h. ground (arith, v.agrees asked e, lookup-delete name asked c.entries);
  }

  pub set-IsCoherent :
      (c : ClassificationCache) (name : Text) (tc : ToolClassification) (now : ℕ)
      → store name ≡ some tc
      → IsCoherent store c
      → IsCoherent store (set c name tc now)
  unfolding set
  set-IsCoherent c name tc now s v = record {
    agrees = λ asked e h. ground (
      arith,
      v.agrees asked e,
      eq_iff name asked,
      lookup-insert name asked (record { classification = tc; expires_at = now + c.ttl }) c.entries,
    );
  }

-- When the store changes at one name, deleting that name from the cache keeps the two in agreement.
invalidate-IsCoherent :
    (store store' : Text → Option ToolClassification) (c : ClassificationCache) (name : Text)
    → ((other : Text) → (name == other) ≡ false → store' other ≡ store other)
    → IsCoherent store c
    → IsCoherent store' (invalidate c name)
unfolding invalidate
invalidate-IsCoherent store store' c name same v = record {
  agrees =
      λ asked e h. ground (arith, v.agrees asked e, same asked, lookup-delete name asked c.entries);
}
