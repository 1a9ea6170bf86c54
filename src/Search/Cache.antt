-- ===== src/Search/Cache.antt =====
-- internal/search/embedding_cache.go: the cache of embeddings, which drops the least recently used.
-- Every operation holds the lock from beginning to end.
pub mod Recency
pub mod Refinement
pub mod Runs
use cruvero_mcp_gateway.Prelude.{
  ℕ, ◌+◌, Bool, true, false, ◌&&◌, List, [], ◌∷◌, ◌++◌, Option, none, some, ltb, leb, if◌then◌else◌,
  length, ◌==◌,
}
use cruvero_mcp_gateway.Prelude.Int.{ℤ, is_pos, to_nat}
use cruvero_mcp_gateway.Prelude.Texts.{Text, text_eq}
use cruvero_mcp_gateway.Prelude.Maps.{Map, lookup, insert, delete}

-- `order` has the most recently used key at its end; a capacity of 0 is none.
pub record EmbeddingCache (V : Type 0) : Type 0 where
  pub entries : Map Text V
  pub order : List Text
  pub max_size : ℕ

unfoldable pub new_embedding_cache : {V : Type 0} → ℤ → EmbeddingCache V
new_embedding_cache n = record {
  entries = [];
  order = [];
  max_size = if is_pos n then to_nat n else 0;
}

-- The loop of `moveToEndLocked`: the order without the first place of a key.
unfoldable pub without : List Text → Text → List Text
without [] key = []
without (k ∷ ks) key = if k == key then ks else k ∷ without ks key

unfoldable pub has_key : List Text → Text → Bool
has_key [] key = false
has_key (k ∷ ks) key = if k == key then true else has_key ks key

unfoldable pub move_to_end : List Text → Text → List Text
unfolding without has_key
move_to_end order key = if has_key order key then without order key ++ key ∷ [] else order

module _ {V : Type 0} where
  unfoldable pub evict : EmbeddingCache V → EmbeddingCache V
  evict c = elim c.order [
    | [] ↦ c
    | oldest ∷ rest ↦ record c { order = rest; entries = delete oldest c.entries }
  ]

  unfoldable pub get : EmbeddingCache V → Text → Option V × EmbeddingCache V
  unfolding move_to_end
  get c key = elim (lookup key c.entries) [
    | none ↦ (none, c)
    | some v ↦ (some v, record c { order = move_to_end c.order key })
  ]

  unfoldable pub set : EmbeddingCache V → Text → V → EmbeddingCache V
  unfolding move_to_end evict
  set c key v = elim (lookup key c.entries) [
    | some old ↦ record c { entries = insert key v c.entries; order = move_to_end c.order key }
    | none ↦
        let c' = if ltb 0 c.max_size && leb c.max_size (length c.entries) then evict c else c in
        record c' { entries = insert key v c'.entries; order = c'.order ++ key ∷ [] }
  ]
