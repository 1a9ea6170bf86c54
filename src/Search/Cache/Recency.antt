-- ===== src/Search/Cache/Recency.antt =====
-- internal/search/embedding_cache.go: the cache as one list of pairs, the least recently used first.
use cruvero_mcp_gateway.Prelude.{
  length-append, suc, ◌≡◌, refl, Bool, true, false, List, [], ◌∷◌, ◌++◌, Option, none, some,
  if◌then◌else◌, length, ◌==◌, arith, eq_iff, Bool-cases, inl, inr, eq_self,
}
use cruvero_mcp_gateway.Prelude.Texts.{Text, text_eq}
use cruvero_mcp_gateway.Prelude.Maps.{Map, lookup, insert, delete, lookup-delete, lookup-insert}
use cruvero_mcp_gateway.Search.Cache.{move_to_end, without, has_key}

module _ {V : Type 0} where
  -- No key has two entries.
  unfoldable pub Distinct : Map Text V → Type 0
  Distinct [] = Unit
  Distinct ((k, v) ∷ rest) = (lookup k rest ≡ none) × Distinct rest

  unfoldable pub keys : Map Text V → List Text
  keys [] = []
  keys ((k, v) ∷ rest) = k ∷ keys rest

  abbrev pub is_some : Option V → Bool
  is_some none = false
  is_some (some v) = true

  pub keys-append : (l : Map Text V) (k : Text) (v : V) → keys (l ++ (k, v) ∷ []) ≡ keys l ++ k ∷ []
  unfolding keys
  keys-append [] k v = refl
  keys-append ((j, w) ∷ rest) k v = ground (arith, keys-append rest k v)

  pub lookup-append :
      (l : Map Text V) (k x : Text) (v : V)
      → lookup x (l ++ (k, v) ∷ [])
        ≡ (if is_some (lookup x l) then lookup x l else if k == x then some v else none)
  unfolding lookup
  lookup-append [] k x v = refl
  lookup-append ((j, w) ∷ rest) k x v = ground (arith, lookup-append rest k x v)

  delete_absent : (k : Text) (l : Map Text V) → lookup k l ≡ none → delete k l ≡ l
  unfolding lookup delete
  delete_absent k [] h = refl
  delete_absent k ((j, w) ∷ rest) h = ground (arith, delete_absent k rest)

  pub has_key-keys : (l : Map Text V) (k : Text) → has_key (keys l) k ≡ is_some (lookup k l)
  unfolding keys has_key lookup
  has_key-keys [] k = refl
  has_key-keys ((j, w) ∷ rest) k = ground (arith, has_key-keys rest k)

  pub without-keys :
      (l : Map Text V) (k : Text) → Distinct l → without (keys l) k ≡ keys (delete k l)
  unfolding keys without delete Distinct
  without-keys [] k d = refl
  without-keys ((j, w) ∷ rest) k (fresh, d) =
      ground (arith, without-keys rest k d, eq_iff j k, delete_absent k rest)

  pub Distinct-delete : (k : Text) (l : Map Text V) → Distinct l → Distinct (delete k l)
  unfolding Distinct delete
  Distinct-delete k [] d = tt
  Distinct-delete k ((j, w) ∷ rest) (fresh, d) = elim (Bool-cases (j == k)) [
    | inl e ↦ rw (delete, e) (Distinct-delete k rest d)
    | inr e ↦ rw (delete, e) (ground (arith, lookup-delete k j rest), Distinct-delete k rest d)
  ]

  pub Distinct-insert : (k : Text) (v : V) (l : Map Text V) → Distinct l → Distinct (insert k v l)
  unfolding Distinct insert lookup
  Distinct-insert k v [] d = (refl, tt)
  Distinct-insert k v ((j, w) ∷ rest) (fresh, d) = elim (Bool-cases (j == k)) [
    | inl e ↦ rw (insert, e) (ground (arith, eq_iff j k), d)
    | inr e ↦
        rw (insert, e)
          (
            ground (arith, lookup-insert k j v rest, eq_iff j k, eq_iff k j),
            Distinct-insert k v rest d,
          )
  ]

  pub Distinct-append :
      (l : Map Text V) (k : Text) (v : V)
      → Distinct l
      → lookup k l ≡ none
      → Distinct (l ++ (k, v) ∷ [])
  unfolding Distinct lookup
  Distinct-append [] k v d h = (refl, tt)
  Distinct-append ((j, w) ∷ rest) k v (fresh, d) h = (
    ground (arith, lookup-append rest k j v, eq_iff j k, eq_iff k j),
    Distinct-append rest k v d (ground arith),
  )

  pub length-insert :
      (k : Text) (v : V) (l : Map Text V)
      → length (insert k v l) ≡ (if is_some (lookup k l) then length l else suc (length l))
  unfolding insert lookup
  length-insert k v [] = refl
  length-insert k v ((j, w) ∷ rest) = ground (arith, length-insert k v rest)

  pub length-delete :
      (k : Text) (l : Map Text V)
      → Distinct l
      → length l ≡ (if is_some (lookup k l) then suc (length (delete k l)) else length (delete k l))
  unfolding delete lookup Distinct
  length-delete k [] d = refl
  length-delete k ((j, w) ∷ rest) (fresh, d) =
      ground (arith, length-delete k rest d, eq_iff j k, delete_absent k rest)

  -- A key with its value goes to the end.
  abbrev pub touch : Text → V → Map Text V → Map Text V
  touch k v l = delete k l ++ (k, v) ∷ []

  pub moved :
      (l : Map Text V) (k : Text) (v w : V)
      → Distinct l
      → lookup k l ≡ some w
      → move_to_end (keys l) k ≡ keys (touch k v l)
  unfolding move_to_end
  moved l k v w d h =
      ground (arith, has_key-keys l k, without-keys l k d, keys-append (delete k l) k v)

  pub length-touch :
      (l : Map Text V) (k : Text) (v w : V)
      → Distinct l
      → lookup k l ≡ some w
      → length (touch k v l) ≡ length l
  length-touch l k v w d h =
      ground (arith, length-delete k l d, length-append (delete k l) ((k, v) ∷ []))

  pub lookup-touch :
      (l : Map Text V) (k x : Text) (v : V)
      → lookup x (touch k v l) ≡ (if k == x then some v else lookup x l)
  lookup-touch l k x v = ground (arith, lookup-append (delete k l) k x v, lookup-delete k x l)

  pub Distinct-touch : (l : Map Text V) (k : Text) (v : V) → Distinct l → Distinct (touch k v l)
  Distinct-touch l k v d =
      Distinct-append (delete k l) k v (Distinct-delete k l d)
        (ground (arith, lookup-delete k k l, eq_self k))
