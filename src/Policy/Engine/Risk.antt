-- ===== src/Policy/Engine/Risk.antt =====
-- The risk of a tool: the cache in front of the store does not change it.
use cruvero_mcp_gateway.Prelude.{
  ℕ, ◌≡◌, refl, Option, none, some, arith, Result, ok, err, Option-cases, sym, inl, inr,
}
use cruvero_mcp_gateway.Prelude.Texts.{Text, text_eq}
use cruvero_mcp_gateway.Prelude.Maps.{lookup}
use cruvero_mcp_gateway.Types.{RiskLevel, ToolClassification}
use cruvero_mcp_gateway.Policy.Schema.{Json}
use cruvero_mcp_gateway.Policy.Values.{PolicyRequest}
use cruvero_mcp_gateway.Policy.Cache.{ClassificationCache, get, set}
use cruvero_mcp_gateway.Policy.Cache.Coherence.{IsCoherent, get-IsCoherent, set-IsCoherent}
use cruvero_mcp_gateway.Policy.Engine.{
  ClassificationStore, Engine, cache_set, risk_from_store, resolve_risk_level, current_risk,
  evaluate, risk_after, blocks, destructive_decision, trim_space, destructive, false,
}

-- The classification that a store answers with, none if it fails.
abbrev pub answer : ClassificationStore → Text → Option ToolClassification
answer store name = elim (store name) [ ok found ↦ found | err e ↦ none ]

store_of_answer :
    (store : ClassificationStore) (name : Text) {tc : ToolClassification}
    → answer store name ≡ some tc
    → store name ≡ ok (some tc)
store_of_answer store name h = ground arith

answer_of_store :
    (store : ClassificationStore) (name : Text) {tc : ToolClassification}
    → store name ≡ ok (some tc)
    → answer store name ≡ some tc
answer_of_store store name h = ground arith

get-answer :
    (store : ClassificationStore) (c : ClassificationCache) (name : Text) (now : ℕ)
    (tc : ToolClassification)
    → IsCoherent (answer store) c
    → (get c name now).0 ≡ some tc
    → store name ≡ ok (some tc)
unfolding get
get-answer store c name now tc v h = elim (Option-cases (lookup name c.entries)) [
  | inl e ↦ ground arith
  | inr (en, e) ↦ store_of_answer store name (ground (arith, v.agrees name en e))
]

-- A result that has the risk that the store's answer makes, and a cache that agrees with it.
abbrev pub IsFaithful : ClassificationStore → Text → RiskLevel × Option ClassificationCache → Type 0
IsFaithful store name r =
    (r.0 ≡ (risk_from_store name (store name) none 0).0)
    × (c : ClassificationCache) × (r.1 ≡ some c)
    × IsCoherent (answer store) c

risk_after-IsFaithful :
    (store : ClassificationStore) (found : Option ToolClassification) (c : ClassificationCache)
    (name : Text) (fetched : Result Text (Option ToolClassification)) (now : ℕ)
    → fetched ≡ store name
    → ((tc : ToolClassification) → found ≡ some tc → store name ≡ ok (some tc))
    → IsCoherent (answer store) c
    → IsFaithful store name (risk_after found name fetched (some c) now)
unfolding risk_after risk_from_store cache_set
risk_after-IsFaithful store (some tc) c name fetched now s f v = (rw (f tc refl), c, refl, v)
risk_after-IsFaithful store none c name (err e) now s f v = (rw (← s), c, refl, v)
risk_after-IsFaithful store none c name (ok none) now s f v = (rw (← s), c, refl, v)
risk_after-IsFaithful store none c name (ok (some tc)) now s f v = (
  rw (← s),
  set c name tc now,
  refl,
  set-IsCoherent c name tc now (answer_of_store store name (sym s)) v,
)

-- With a cache that agrees with the store, the risk is what the store's answer makes it, whether
-- the cache has the tool, has it no more or never had it; and the cache goes on agreeing.
pub resolve_risk_level-IsFaithful :
    (store : ClassificationStore) (c : ClassificationCache) (name : Text) (now : ℕ)
    → IsCoherent (answer store) c
    → IsFaithful store name (resolve_risk_level name store (some c) now)
unfolding resolve_risk_level
resolve_risk_level-IsFaithful store c name now v =
    risk_after-IsFaithful store (get c name now).0 (get c name now).1 name (store name) now refl
      (λ tc h. get-answer store c name now tc v h) (get-IsCoherent c name now v)

-- With a classification store and a cache set that agree, a tool that the store has as destructive
-- is refused, whatever the profile, its mode and the arguments are.
pub evaluate_destructive :
    {N : Type 0} (j : Json N) (e : Engine) (req : PolicyRequest N) (now : ℕ)
    (store : ClassificationStore) (c : ClassificationCache) (tc : ToolClassification)
    → e.classification_store ≡ some store
    → e.classification_cache ≡ some c
    → IsCoherent (answer store) c
    → store (trim_space req.tool_name) ≡ ok (some tc)
    → tc.risk_level ≡ destructive
    → (evaluate j e req now).0.allowed ≡ false
unfolding evaluate current_risk blocks destructive_decision risk_from_store
evaluate_destructive j e req now store c tc es ec v st d =
    let r = (resolve_risk_level-IsFaithful store c (trim_space req.tool_name) now v).0 in
    ground (arith, r)
