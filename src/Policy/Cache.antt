-- ===== src/Policy/Cache.antt =====
-- internal/policy/classification_cache.go: classifications kept for a time. The clock is an
-- argument; an entry that has expired is deleted when it is asked for.
pub mod Coherence
use cruvero_mcp_gateway.Prelude.{ℕ, ◌+◌, List, [], Option, none, some, ltb, if◌then◌else◌}
use cruvero_mcp_gateway.Prelude.Int.{ℤ, is_pos, to_nat}
use cruvero_mcp_gateway.Prelude.Texts.{Text, text_eq}
use cruvero_mcp_gateway.Prelude.Maps.{Map, lookup, insert, delete}
use cruvero_mcp_gateway.Types.{ToolClassification}

pub record Entry : Type 0 where
  pub classification : ToolClassification
  pub expires_at : ℕ

pub record ClassificationCache : Type 0 where
  pub entries : Map Text Entry
  pub ttl : ℕ

-- Five minutes.
abbrev pub default_classification_cache_ttl : ℕ
default_classification_cache_ttl = 300_000_000_000

unfoldable pub new_classification_cache : ℤ → ClassificationCache
new_classification_cache ttl = record {
  entries = [];
  ttl = if is_pos ttl then to_nat ttl else default_classification_cache_ttl;
}

unfoldable pub get :
    ClassificationCache → Text → ℕ → Option ToolClassification × ClassificationCache
get c name now = elim (lookup name c.entries) [
  | none ↦ (none, c)
  | some e ↦
      if ltb e.expires_at now
      then (none, record c { entries = delete name c.entries })
      else (some e.classification, c)
]

unfoldable pub set : ClassificationCache → Text → ToolClassification → ℕ → ClassificationCache
set c name tc now = record c {
  entries = insert name (record { classification = tc; expires_at = now + c.ttl }) c.entries;
}

unfoldable pub invalidate : ClassificationCache → Text → ClassificationCache
invalidate c name = record c { entries = delete name c.entries }

unfoldable pub invalidate_all : ClassificationCache → ClassificationCache
invalidate_all c = record c { entries = [] }
