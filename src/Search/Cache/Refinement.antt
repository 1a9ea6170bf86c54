-- ===== src/Search/Cache/Refinement.antt =====
-- internal/search/embedding_cache.go: the map with its order against one list of pairs.
use cruvero_mcp_gateway.Prelude.{
  ℕ, suc, ◌≤◌, ◌<◌, ◌≡◌, refl, ◌&&◌, [], ◌∷◌, ◌++◌, Option, none, some, ltb, leb, if◌then◌else◌,
  length, arith, eq_iff, eq_self, Bool-cases, Option-cases, inl, inr, length-append, sym, ap, ◌∙◌,
}
use cruvero_mcp_gateway.Prelude.Texts.{Text, text_eq}
use cruvero_mcp_gateway.Prelude.Maps.{Map, lookup, insert, lookup-delete, lookup-insert}
use cruvero_mcp_gateway.Search.Cache.{EmbeddingCache, move_to_end, evict, get, set}
use cruvero_mcp_gateway.Search.Cache.Recency.{
  touch, moved, length-touch, lookup-touch, Distinct-touch, Distinct, keys, keys-append,
  lookup-append, Distinct-delete, Distinct-insert, Distinct-append, length-insert, length-delete,
}

module _ {V : Type 0} where
  abbrev pub rest_of : Map Text V → Map Text V
  rest_of [] = []
  rest_of (e ∷ l) = l

  -- The cache of a capacity as a list of pairs: a hit goes to the end, and a new key first drops the
  -- pair at the front where the list is full.
  unfoldable pub get_pairs : Map Text V → Text → Option V × Map Text V
  get_pairs l k = elim (lookup k l) [ none ↦ (none, l) | some v ↦ (some v, touch k v l) ]

  unfoldable pub set_pairs : ℕ → Map Text V → Text → V → Map Text V
  set_pairs max l k v = elim (lookup k l) [
    | some old ↦ touch k v l
    | none ↦ (if ltb 0 max && leb max (length l) then rest_of l else l) ++ (k, v) ∷ []
  ]

  -- What the fields of a cache have to do with the list.
  pub record Shows (c : EmbeddingCache V) (l : Map Text V) : Type 0 where
    pub in_order : c.order ≡ keys l
    pub same_values : (k : Text) → lookup k c.entries ≡ lookup k l
    pub same_length : length c.entries ≡ length l
    pub entries_distinct : Distinct c.entries
    pub pairs_distinct : Distinct l

  hit_Shows :
      (c : EmbeddingCache V) (l : Map Text V) (k : Text) (v : V)
      → Shows c l
      → lookup k l ≡ some v
      → Shows (record c { order = move_to_end c.order k }) (touch k v l)
  hit_Shows c l k v s e = record {
    in_order = ap (λ o. move_to_end o k) s.in_order ∙ moved l k v v s.pairs_distinct e;
    same_values = λ x. ground (arith, lookup-touch l k x v, eq_iff k x, s.same_values x);
    same_length = s.same_length ∙ sym (length-touch l k v v s.pairs_distinct e);
    entries_distinct = s.entries_distinct;
    pairs_distinct = Distinct-touch l k v s.pairs_distinct;
  }

  put_Shows :
      (c : EmbeddingCache V) (l : Map Text V) (k : Text) (v w : V)
      → Shows c l
      → lookup k l ≡ some w
      → Shows
          (record c { entries = insert k v c.entries; order = move_to_end c.order k })
          (touch k v l)
  put_Shows c l k v w s e = record {
    in_order = ap (λ o. move_to_end o k) s.in_order ∙ moved l k v w s.pairs_distinct e;
    same_values =
        λ x. ground (arith, lookup-touch l k x v, lookup-insert k x v c.entries, s.same_values x);
    same_length = ground (
      arith,
      length-insert k v c.entries,
      s.same_values k,
      s.same_length,
      length-touch l k v w s.pairs_distinct,
    );
    entries_distinct = Distinct-insert k v c.entries s.entries_distinct;
    pairs_distinct = Distinct-touch l k v s.pairs_distinct;
  }

  append_Shows :
      (c : EmbeddingCache V) (l : Map Text V) (k : Text) (v : V)
      → Shows c l
      → lookup k l ≡ none
      → Shows
          (record c { entries = insert k v c.entries; order = c.order ++ k ∷ [] })
          (l ++ (k, v) ∷ [])
  append_Shows c l k v s e = record {
    in_order = ap (λ o. o ++ k ∷ []) s.in_order ∙ sym (keys-append l k v);
    same_values = λ x.
        ground (
          arith,
          lookup-append l k x v,
          lookup-insert k x v c.entries,
          s.same_values x,
          eq_iff k x,
        );
    same_length = ground (
      arith,
      length-insert k v c.entries,
      s.same_values k,
      s.same_length,
      length-append l ((k, v) ∷ []),
    );
    entries_distinct = Distinct-insert k v c.entries s.entries_distinct;
    pairs_distinct = Distinct-append l k v s.pairs_distinct e;
  }

  evict-Shows : (c : EmbeddingCache V) (l : Map Text V) → Shows c l → Shows (evict c) (rest_of l)
  unfolding evict keys lookup Distinct
  evict-Shows c [] s = rw (evict, s.in_order) s
  evict-Shows c ((k, v) ∷ rest) s =
      rw (evict, s.in_order)
        (record {
          in_order = refl;
          same_values = λ x.
              ground (
                arith,
                lookup-delete k x c.entries,
                s.same_values x,
                eq_iff k x,
                s.pairs_distinct.0,
              );
          same_length = ground (
            arith,
            length-delete k c.entries s.entries_distinct,
            s.same_values k,
            s.same_length,
            eq_self k,
          );
          entries_distinct = Distinct-delete k c.entries s.entries_distinct;
          pairs_distinct = s.pairs_distinct.1;
        })

  lookup-rest_of : (l : Map Text V) (k : Text) → lookup k l ≡ none → lookup k (rest_of l) ≡ none
  unfolding lookup
  lookup-rest_of [] k h = refl
  lookup-rest_of ((j, w) ∷ rest) k h = ground arith

  pub set-Shows :
      (c : EmbeddingCache V) (l : Map Text V) (k : Text) (v : V)
      → Shows c l
      → Shows (set c k v) (set_pairs c.max_size l k v)
  unfolding set set_pairs
  set-Shows c l k v s = elim (Option-cases (lookup k l)) [
    | inr (w, e) ↦
        let e' : lookup k c.entries ≡ some w = s.same_values k ∙ e in
        rw (set, set_pairs, e, e') (put_Shows c l k v w s e)
    | inl e ↦
        let e' : lookup k c.entries ≡ none = s.same_values k ∙ e in
        elim (Bool-cases (ltb 0 c.max_size && leb c.max_size (length l))) [
          | inl full ↦
              rw (set, set_pairs, e, e', s.same_length, full)
                (append_Shows (evict c) (rest_of l) k v (evict-Shows c l s) (lookup-rest_of l k e))
          | inr free ↦ rw (set, set_pairs, e, e', s.same_length, free) (append_Shows c l k v s e)
        ]
  ]

  pub get-Shows :
      (c : EmbeddingCache V) (l : Map Text V) (k : Text)
      → Shows c l
      → ((get c k).0 ≡ (get_pairs l k).0) × Shows (get c k).1 (get_pairs l k).1
  unfolding get get_pairs
  get-Shows c l k s = elim (Option-cases (lookup k l)) [
    | inl e ↦
        let e' : lookup k c.entries ≡ none = s.same_values k ∙ e in
        rw (get, get_pairs, e, e') (refl, s)
    | inr (v, e) ↦
        let e' : lookup k c.entries ≡ some v = s.same_values k ∙ e in
        rw (get, get_pairs, e, e') (refl, hit_Shows c l k v s e)
  ]

  max_size-evict : (c : EmbeddingCache V) → (evict c).max_size ≡ c.max_size
  unfolding evict
  max_size-evict c = ground arith

  pub max_size-set : (c : EmbeddingCache V) (k : Text) (v : V) → (set c k v).max_size ≡ c.max_size
  unfolding set
  max_size-set c k v = ground (arith, max_size-evict c)

  pub max_size-get : (c : EmbeddingCache V) (k : Text) → (get c k).1.max_size ≡ c.max_size
  unfolding get
  max_size-get c k = ground arith

  length-rest_of : (l : Map Text V) → 0 < length l → suc (length (rest_of l)) ≡ length l
  length-rest_of [] h = ground arith
  length-rest_of (e ∷ l) h = refl

  pub length-set_pairs :
      (max : ℕ) (l : Map Text V) (k : Text) (v : V)
      → 0 < max
      → length l ≤ max
      → Distinct l
      → length (set_pairs max l k v) ≤ max
  unfolding set_pairs
  length-set_pairs max l k v positive h d = elim (Option-cases (lookup k l)) [
    | inr (w, e) ↦ rw (set_pairs, e) (ground (arith, length-touch l k v w d))
    | inl e ↦ elim (Bool-cases (ltb 0 max && leb max (length l))) [
      | inl full ↦
          rw (set_pairs, e, full)
            (ground (arith, length-append (rest_of l) ((k, v) ∷ []), length-rest_of l))
      | inr free ↦ rw (set_pairs, e, free) (ground (arith, length-append l ((k, v) ∷ [])))
    ]
  ]

  pub length-get_pairs :
      (l : Map Text V) (k : Text) → Distinct l → length (get_pairs l k).1 ≡ length l
  unfolding get_pairs
  length-get_pairs l k d = elim (Option-cases (lookup k l)) [
    | inl e ↦ rw (get_pairs, e) refl
    | inr (v, e) ↦ rw (get_pairs, e) (length-touch l k v v d e)
  ]
