-- ===== src/RateLimit/Store/Sharing.antt =====
-- Who shares a limiter with whom.
use cruvero_mcp_gateway.Prelude.{
  ℕ, suc, ◌<◌, ◌≡◌, ◌⊎◌, inl, inr, Option, none, some, arith, ◌==◌, if◌then◌else◌, eq_iff,
  Option-cases, ◌↔◌, eq_self, Bool-cases, sym, ◌∙◌,
}
use cruvero_mcp_gateway.Prelude.Int.{ℤ}
use cruvero_mcp_gateway.Prelude.Maps.{lookup, lookup-insert, lookup-delete}
use cruvero_mcp_gateway.Types.{PolicyProfile}
use cruvero_mcp_gateway.RateLimit.Keys.{LimiterKey, key_eq, key_beq, normalize_key}
use cruvero_mcp_gateway.RateLimit.Rates.{Rates}
use cruvero_mcp_gateway.RateLimit.Store.{
  Entry, LimiterStore, new_limiter_store, create, touch, get_or_create, remove,
}

module _ {rates : Rates} where
  -- Two entries never share a limiter, and the next address is fresh.
  pub record IsDistinct (s : LimiterStore rates) : Type 0 where
    pub fresh :
        (k : LimiterKey) (e : Entry rates)
        → lookup k s.limiters ≡ some e
        → e.limiter.address < s.next
    pub apart :
        (k j : LimiterKey) (e f : Entry rates)
        → lookup k s.limiters ≡ some e
        → lookup j s.limiters ≡ some f
        → e.limiter.address ≡ f.limiter.address
        → k ≡ j

  pub new-IsDistinct : (r : rates.Rate) (b : ℤ) → IsDistinct (new_limiter_store rates r b)
  unfolding new_limiter_store lookup
  new-IsDistinct r b = record {
    fresh = λ k e h. ground arith;
    apart = λ k j e f h g q. ground arith;
  }

  -- What `GetOrCreate` leaves in the map: the entry of its limiter, and the others as they were.
  lookup-get_or_create :
      (s : LimiterStore rates) (raw j : LimiterKey) (profile : Option PolicyProfile) (now : ℕ)
      → lookup j (get_or_create rates s raw profile now).1.limiters ≡ (
          if normalize_key raw == j
          then some
              (record { limiter = (get_or_create rates s raw profile now).0; last_used = now })
          else lookup j s.limiters)
  unfolding get_or_create lookup key_beq
  lookup-get_or_create s raw j profile now =
      elim (Option-cases (lookup (normalize_key raw) s.limiters)) [
        | inl e ↦ rw (e, get_or_create, create) (lookup-insert (normalize_key raw) j _ s.limiters)
        | inr (f, e) ↦
            rw (e, get_or_create, touch) (lookup-insert (normalize_key raw) j _ s.limiters)
      ]

  own_entry :
      (s : LimiterStore rates) (raw : LimiterKey) (profile : Option PolicyProfile) (now : ℕ)
      → lookup (normalize_key raw) (get_or_create rates s raw profile now).1.limiters
        ≡ some (record { limiter = (get_or_create rates s raw profile now).0; last_used = now })
  own_entry s raw profile now = ground (
    arith,
    lookup-get_or_create s raw (normalize_key raw) profile now,
    eq_self (normalize_key raw),
  )

  -- The limiter is the one of the entry, or new.
  get_or_create_cases :
      (s : LimiterStore rates) (raw : LimiterKey) (profile : Option PolicyProfile) (now : ℕ)
      → ((e : Entry rates) × (lookup (normalize_key raw) s.limiters ≡ some e)
          × ((get_or_create rates s raw profile now).0 ≡ e.limiter)
          × ((get_or_create rates s raw profile now).1.next ≡ s.next))
        ⊎ ((lookup (normalize_key raw) s.limiters ≡ none)
            × ((get_or_create rates s raw profile now).0.address ≡ s.next)
            × ((get_or_create rates s raw profile now).1.next ≡ suc s.next))
  unfolding get_or_create create touch
  get_or_create_cases s raw profile now =
      elim (Option-cases (lookup (normalize_key raw) s.limiters)) [
        | inl e ↦ inr (e, ground arith, ground arith)
        | inr (f, e) ↦ inl (f, e, ground arith, ground arith)
      ]

  fresh_after :
      (s : LimiterStore rates) (raw k : LimiterKey) (profile : Option PolicyProfile) (now : ℕ)
      (e : Entry rates)
      → IsDistinct s
      → lookup k (get_or_create rates s raw profile now).1.limiters ≡ some e
      → e.limiter.address < (get_or_create rates s raw profile now).1.next
  fresh_after s raw k profile now e v h =
      let l = lookup-get_or_create s raw k profile now in
      elim (get_or_create_cases s raw profile now) [
        | inl (f, found, same, n) ↦ ground (arith, l, v.fresh k e, v.fresh (normalize_key raw) f)
        | inr (missing, a, n) ↦ ground (arith, l, v.fresh k e)
      ]

  apart_after :
      (s : LimiterStore rates) (raw k j : LimiterKey) (profile : Option PolicyProfile) (now : ℕ)
      (e f : Entry rates)
      → IsDistinct s
      → lookup k (get_or_create rates s raw profile now).1.limiters ≡ some e
      → lookup j (get_or_create rates s raw profile now).1.limiters ≡ some f
      → e.limiter.address ≡ f.limiter.address
      → k ≡ j
  apart_after s raw k j profile now e f v h g q =
      let l = lookup-get_or_create s raw k profile now in
      let m = lookup-get_or_create s raw j profile now in
      let key = normalize_key raw in
      elim (get_or_create_cases s raw profile now) [
        | inl (x, found, same, n) ↦ ground (
          arith,
          l,
          m,
          eq_iff key k,
          eq_iff key j,
          v.apart k j e f,
          v.apart key j x f,
          v.apart k key e x,
        )
        | inr (missing, a, n) ↦
            ground
              (arith, l, m, eq_iff key k, eq_iff key j, v.apart k j e f, v.fresh k e, v.fresh j f)
      ]

  pub get_or_create-IsDistinct :
      (s : LimiterStore rates) (raw : LimiterKey) (profile : Option PolicyProfile) (now : ℕ)
      → IsDistinct s
      → IsDistinct (get_or_create rates s raw profile now).1
  get_or_create-IsDistinct s raw profile now v = record {
    fresh = λ k e h. fresh_after s raw k profile now e v h;
    apart = λ k j e f h g q. apart_after s raw k j profile now e f v h g q;
  }

  pub remove-IsDistinct :
      (s : LimiterStore rates) (raw : LimiterKey) → IsDistinct s → IsDistinct (remove rates s raw)
  unfolding remove
  remove-IsDistinct s raw v = record {
    fresh = λ k e h. ground (arith, v.fresh k e, lookup-delete (normalize_key raw) k s.limiters);
    apart = λ k j e f h g q. ground (
      arith,
      v.apart k j e f,
      lookup-delete (normalize_key raw) k s.limiters,
      lookup-delete (normalize_key raw) j s.limiters,
    );
  }

  -- From a store whose entries have limiters of their own, two requests for a limiter get the same
  -- one exactly if their keys are the same once normalized, whatever the profiles are.
  pub get_or_create-shares :
      (s : LimiterStore rates) (a b : LimiterKey) (p q : Option PolicyProfile) (now later : ℕ)
      → IsDistinct s
      → let (first, s') = get_or_create rates s a p now in
        (first.address ≡ (get_or_create rates s' b q later).0.address)
        ↔ (normalize_key a ≡ normalize_key b)
  get_or_create-shares s a b p q now later v =
      let s' = (get_or_create rates s a p now).1 in
      let v' = get_or_create-IsDistinct s' b q later (get_or_create-IsDistinct s a p now v) in
      let own = own_entry s a p now in
      let x : Entry rates = record {
        limiter = (get_or_create rates s a p now).0;
        last_used = now;
      } in
      let y : Entry rates = record {
        limiter = (get_or_create rates s' b q later).0;
        last_used = later;
      } in
      let kept = lookup-get_or_create s' b (normalize_key a) q later in
      (
        λ e. elim (Bool-cases (normalize_key b == normalize_key a)) [
          | inl same ↦ sym ((eq_iff (normalize_key b) (normalize_key a)).0 same)
          | inr other ↦
              v'.apart (normalize_key a) (normalize_key b) x y (kept ∙ rw other own)
                (own_entry s' b q later) e
        ],
        λ e. elim (get_or_create_cases s' b q later) [
          | inl (f, found, same, n) ↦ ground (arith, own)
          | inr (missing, fresh, n) ↦ ground (arith, own)
        ],
      )
