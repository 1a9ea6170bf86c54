-- ===== src/Registration/Subscriber/Window.antt =====
-- internal/registration/refresh_handler.go: how many refreshes a server may push in a window.
use cruvero_mcp_gateway.Prelude.{
  ℕ, suc, ◌+◌, ◌≤◌, ◌≡◌, refl, inl, inr, arith, ◌==◌, Bool, true, false, ◌&&◌, none, some,
  if◌then◌else◌, List, [], ◌∷◌, eq_iff, All, Bool-cases, Option-cases, ltb, leb, ◌∙◌,
}
use cruvero_mcp_gateway.Prelude.Texts.{Text, text_eq}
use cruvero_mcp_gateway.Prelude.Maps.{Map, lookup, insert, lookup-insert, lookup-insert_self}
use cruvero_mcp_gateway.Registration.Subscriber.{
  RateBucket, allow_request, refresh_rate_limit, refresh_rate_window,
}

-- How many of a sequence of requests, each with its time and server, are allowed for one server.
pub allowed_for : Text → List (ℕ × Text) → Map Text RateBucket → ℕ
unfolding allow_request
allowed_for id [] counters = 0
allowed_for id ((now, k) ∷ rs) counters =
    let (allowed, counters') = allow_request now counters k in
    let rest = allowed_for id rs counters' in if k == id && allowed then suc rest else rest

-- The times lie in an interval.
abbrev pub Between : ℕ → ℕ → List (ℕ × Text) → Type 0
Between t u rs = All (λ r. (t ≤ r.0) × (r.0 ≤ u)) rs

put_other :
    (k id : Text) (b : RateBucket) (c : Map Text RateBucket)
    → (k == id) ≡ false
    → lookup id (insert k b c) ≡ lookup id c
put_other k id b c other = ground (arith, lookup-insert k id b c)

allow_request_fresh :
    (now : ℕ) (c : Map Text RateBucket) (id : Text)
    → lookup id c ≡ none
    → allow_request now c id
      ≡ (true, insert id (record { count = 1; window_end = now + refresh_rate_window }) c)
unfolding allow_request
allow_request_fresh now c id h = rw (allow_request, h) refl

-- A request of another server leaves the bucket.
lookup-allow_request_other :
    (now : ℕ) (c : Map Text RateBucket) (k id : Text)
    → (k == id) ≡ false
    → lookup id (allow_request now c k).1 ≡ lookup id c
unfolding allow_request
lookup-allow_request_other now c k id other = elim (Option-cases (lookup k c)) [
  | inl e ↦ rw (allow_request, e) (put_other k id _ c other)
  | inr (b, e) ↦ elim (Bool-cases (ltb b.window_end now)) [
    | inl late ↦ rw (allow_request, e, late) (put_other k id _ c other)
    | inr soon ↦ elim (Bool-cases (leb refresh_rate_limit b.count)) [
      | inl full ↦ rw (allow_request, e, soon, full) refl
      | inr free ↦ rw (allow_request, e, soon, free) (put_other k id _ c other)
    ]
  ]
]

abbrev counted : RateBucket → RateBucket
counted b = record b { count = suc b.count }

allow_request_free :
    (now : ℕ) (c : Map Text RateBucket) (id : Text) (b : RateBucket)
    → lookup id c ≡ some b
    → now ≤ b.window_end
    → leb refresh_rate_limit b.count ≡ false
    → allow_request now c id ≡ (true, insert id (counted b) c)
unfolding allow_request
allow_request_free now c id b h soon free =
    let early : ltb b.window_end now ≡ false = ground arith in
    rw (allow_request, h, early, free) refl

allow_request_full :
    (now : ℕ) (c : Map Text RateBucket) (id : Text) (b : RateBucket)
    → lookup id c ≡ some b
    → now ≤ b.window_end
    → leb refresh_rate_limit b.count ≡ true
    → allow_request now c id ≡ (false, c)
unfolding allow_request
allow_request_full now c id b h soon full =
    let early : ltb b.window_end now ≡ false = ground arith in
    rw (allow_request, h, early, full) refl

allowed_for_other :
    (now : ℕ) (k id : Text) (rs : List (ℕ × Text)) (c : Map Text RateBucket)
    → (k == id) ≡ false
    → allowed_for id ((now, k) ∷ rs) c ≡ allowed_for id rs (allow_request now c k).1
unfolding allowed_for
allowed_for_other now k id rs c other = rw (allowed_for, other) refl

allowed_for_own :
    (now : ℕ) (k id : Text) (rs : List (ℕ × Text)) (c c' : Map Text RateBucket) (allowed : Bool)
    → (k == id) ≡ true
    → allow_request now c k ≡ (allowed, c')
    → allowed_for id ((now, k) ∷ rs) c
      ≡ (if allowed then suc (allowed_for id rs c') else allowed_for id rs c')
unfolding allowed_for
allowed_for_own now k id rs c c' allowed own e = rw (allowed_for, own, e) refl

allowed_of_bucket :
    (id : Text) (t u : ℕ) (rs : List (ℕ × Text)) (c : Map Text RateBucket) (b : RateBucket)
    → lookup id c ≡ some b
    → b.count ≤ refresh_rate_limit
    → u ≤ b.window_end
    → Between t u rs
    → allowed_for id rs c + b.count ≤ refresh_rate_limit
unfolding allowed_for
allowed_of_bucket id t u [] c b h few ends times = omega arith
allowed_of_bucket id t u ((now, k) ∷ rs) c b h few ends times =
    let soon : now ≤ b.window_end = omega (arith, times.0.1) in
    elim (Bool-cases (k == id)) [
      | inr other ↦
          let held = lookup-allow_request_other now c k id other ∙ h in
          let rest =
            allowed_of_bucket id t u rs (allow_request now c k).1 b held few ends times.1 in
          omega (arith, allowed_for_other now k id rs c other, rest)
      | inl own ↦
          let same : k ≡ id = (eq_iff k id).0 own in
          let held : lookup k c ≡ some b = rw same h in
          elim (Bool-cases (leb refresh_rate_limit b.count)) [
            | inl full ↦
                let e = allow_request_full now c k b held soon full in
                omega (
                  arith,
                  allowed_for_own now k id rs c c false own e,
                  allowed_of_bucket id t u rs c b h few ends times.1,
                )
            | inr free ↦
                let e = allow_request_free now c k b held soon free in
                let c' = insert k (counted b) c in
                let put : lookup id c' ≡ some (counted b) =
                  rw same (lookup-insert_self id (counted b) c) in
                let room : suc b.count ≤ refresh_rate_limit = ground arith in
                omega (
                  arith,
                  allowed_for_own now k id rs c c' true own e,
                  allowed_of_bucket id t u rs c' (counted b) put room ends times.1,
                )
          ]
    ]

-- Of the refreshes that a server without a window pushes in one minute, at most ten are allowed,
-- however many other servers push theirs in between.
pub allowed_for_bounded :
    (id : Text) (t : ℕ) (rs : List (ℕ × Text)) (c : Map Text RateBucket)
    → lookup id c ≡ none
    → Between t (t + refresh_rate_window) rs
    → allowed_for id rs c ≤ refresh_rate_limit
unfolding allowed_for
allowed_for_bounded id t [] c h times = omega arith
allowed_for_bounded id t ((now, k) ∷ rs) c h times = elim (Bool-cases (k == id)) [
  | inr other ↦
      let held = lookup-allow_request_other now c k id other ∙ h in
      let rest = allowed_for_bounded id t rs (allow_request now c k).1 held times.1 in
      omega (arith, allowed_for_other now k id rs c other, rest)
  | inl own ↦
      let same : k ≡ id = (eq_iff k id).0 own in
      let b : RateBucket = record { count = 1; window_end = now + refresh_rate_window } in
      let c' = insert k b c in
      let e : allow_request now c k ≡ (true, c') = allow_request_fresh now c k (rw same h) in
      let put : lookup id c' ≡ some b = rw same (lookup-insert_self id b c) in
      let rest =
        allowed_of_bucket id t (t + refresh_rate_window) rs c' b put (omega arith)
          (omega (arith, times.0.0)) times.1 in
      omega (arith, allowed_for_own now k id rs c c' true own e, rest)
]
