-- ===== src/Search/Cache/Runs.antt =====
-- internal/search/embedding_cache.go: what a cache answers to a sequence of operations.
use cruvero_mcp_gateway.Prelude.{
  ltb→lt, ◌⊎◌, ap₂, ℕ, ◌≤◌, ◌<◌, ◌≡◌, refl, List, [], ◌∷◌, Option, ltb, length, arith, Bool-cases,
  inl, inr, sym, ◌∙◌,
}
use cruvero_mcp_gateway.Prelude.Int.{ℤ}
use cruvero_mcp_gateway.Prelude.Texts.{Text, text_eq}
use cruvero_mcp_gateway.Prelude.Maps.{Map}
use cruvero_mcp_gateway.Search.Cache.{EmbeddingCache, new_embedding_cache, get, set}
use cruvero_mcp_gateway.Search.Cache.Recency.{Distinct, keys}
use cruvero_mcp_gateway.Search.Cache.Refinement.{
  Shows, get_pairs, set_pairs, get-Shows, set-Shows, max_size-set, max_size-get, length-set_pairs,
  length-get_pairs,
}

pub data Operation (V : Type 0) : Type 0 where
  gets : Text → Operation V
  sets : Text → V → Operation V

module _ {V : Type 0} where
  -- What the lookups of a sequence of operations answer, in the cache and in the list.
  pub answers : EmbeddingCache V → List (Operation V) → List (Option V) × EmbeddingCache V
  answers c [] = ([], c)
  answers c (gets k ∷ os) =
      let (found, c') = get c k in let (more, last) = answers c' os in (found ∷ more, last)
  answers c (sets k v ∷ os) = answers (set c k v) os

  pub answers_pairs : ℕ → Map Text V → List (Operation V) → List (Option V) × Map Text V
  answers_pairs max l [] = ([], l)
  answers_pairs max l (gets k ∷ os) =
      let (found, l') = get_pairs l k in
      let (more, last) = answers_pairs max l' os in (found ∷ more, last)
  answers_pairs max l (sets k v ∷ os) = answers_pairs max (set_pairs max l k v) os

  answers-Shows :
      (c : EmbeddingCache V) (l : Map Text V) (max : ℕ) (os : List (Operation V))
      → Shows c l
      → c.max_size ≡ max
      → ((answers c os).0 ≡ (answers_pairs max l os).0)
        × Shows (answers c os).1 (answers_pairs max l os).1
  unfolding answers answers_pairs
  answers-Shows c l max [] s m = (refl, s)
  answers-Shows c l max (gets k ∷ os) s m =
      let (same, s') = get-Shows c l k s in
      let (rest, shows) =
        answers-Shows (get c k).1 (get_pairs l k).1 max os s' (max_size-get c k ∙ m) in
      (ap₂ (λ a b. a ∷ b) same rest, shows)
  answers-Shows c l max (sets k v ∷ os) s m =
      answers-Shows (set c k v) (set_pairs max l k v) max os (rw (sym m) (set-Shows c l k v s))
        (max_size-set c k v ∙ m)

  length-answers_pairs :
      (max : ℕ) (l : Map Text V) (c : EmbeddingCache V) (os : List (Operation V))
      → Shows c l
      → c.max_size ≡ max
      → 0 < max
      → length l ≤ max
      → length (answers_pairs max l os).1 ≤ max
  unfolding answers_pairs
  length-answers_pairs max l c [] s m positive h = h
  length-answers_pairs max l c (gets k ∷ os) s m positive h =
      length-answers_pairs max (get_pairs l k).1 (get c k).1 os (get-Shows c l k s).1
        (max_size-get c k ∙ m) positive (omega (arith, length-get_pairs l k s.pairs_distinct))
  length-answers_pairs max l c (sets k v ∷ os) s m positive h =
      length-answers_pairs max (set_pairs max l k v) (set c k v) os
        (rw (sym m) (set-Shows c l k v s)) (max_size-set c k v ∙ m) positive
        (length-set_pairs max l k v positive h s.pairs_distinct)

  new-Shows : (n : ℤ) → Shows {V = V} (new_embedding_cache n) []
  unfolding new_embedding_cache keys Distinct
  new-Shows n = record {
    in_order = refl;
    same_values = λ k. refl;
    same_length = refl;
    entries_distinct = tt;
    pairs_distinct = tt;
  }

  -- Whatever is looked up and stored, a new cache answers as the list of pairs of its capacity, in
  -- which a key that is used goes to the end and the pair at the front is dropped for a new key; and
  -- a cache with a capacity never holds more entries than it.
  pub answers-new :
      (n : ℤ) (os : List (Operation V))
      → ((answers (new_embedding_cache n) os).0
          ≡ (answers_pairs (new_embedding_cache {V = V} n).max_size [] os).0)
        × (((new_embedding_cache {V = V} n).max_size ≡ 0)
            ⊎ (length (answers (new_embedding_cache n) os).1.entries
                ≤ (new_embedding_cache {V = V} n).max_size))
  answers-new n os =
      let c : EmbeddingCache V = new_embedding_cache n in
      let (same, shows) = answers-Shows c [] c.max_size os (new-Shows n) refl in
      (
        same,
        elim (Bool-cases (ltb 0 c.max_size)) [
          | inr none_set ↦ inl (ground arith)
          | inl positive ↦ inr (
              omega (
                arith,
                shows.same_length,
                length-answers_pairs c.max_size [] c os (new-Shows n) refl
                    (ltb→lt 0 c.max_size positive) (omega arith),
              ))
        ],
      )
