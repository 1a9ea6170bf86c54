-- ===== src/Resilience/Circuit/Interleaving.antt =====
-- The circuit breaker under concurrent calls. The lock is free while a call of a closed breaker
-- runs its function, so such a call is two steps, and others come between; every other call holds
-- the lock from beginning to end and is one step.
use cruvero_mcp_gateway.Prelude.{
  ℕ, suc, ◌-◌, ◌≤◌, ◌<◌, ◌≡◌, refl, ◌⊎◌, inl, inr, ◌≢◌, Option, none, some, arith,
}
use cruvero_mcp_gateway.Resilience.Circuit.{
  closed, open_state, CircuitBreaker, Call, finish_closed, execute, reset,
}

-- The breaker, and how many functions run without the lock.
pub record Shared : Type 0 where
  pub breaker : CircuitBreaker
  pub in_flight : ℕ

module _ (E : Type 0) where
  pub data Step : Shared → Shared → Type 0 where
    start :
        (s : Shared) → s.breaker.state ≡ closed → Step s (record s { in_flight = suc s.in_flight })
    finish :
        (s : Shared) (n now : ℕ) (result : Option E)
        → s.in_flight ≡ suc n
        → Step s (record { breaker = (finish_closed s.breaker now result).0; in_flight = n })
    locked :
        (s : Shared) (c : Call E)
        → s.breaker.state ≢ closed
        → Step s (record s { breaker = (execute s.breaker c).0 })
    forced : (s : Shared) → Step s (record s { breaker = reset s.breaker })

  pub data Reach (s : Shared) : Shared → Type 0 where
    here : Reach s s
    next : {t u : Shared} → Reach s t → Step t u → Reach s u

pub record Inv (s : Shared) : Type 0 where
  pub threshold_pos : 0 < s.breaker.threshold
  pub closed_below : s.breaker.state ≡ closed → s.breaker.failures < s.breaker.threshold

-- A reset, or a probe that began once the timeout had passed.
abbrev pub Leaves : Type 0 → Shared → Shared → Type 0
Leaves E s t =
    (t.breaker ≡ reset s.breaker)
    ⊎ ((c : Call E) × (s.breaker.timeout ≤ c.now - s.breaker.last_failure)
        × (t.breaker ≡ (execute s.breaker c).0))

module _ {E : Type 0} where
  Step-Inv : {s t : Shared} → Step E s t → Inv s → Inv t
  unfolding finish_closed execute reset
  Step-Inv (start s h) v = ground arith
  Step-Inv (finish s n now result h) v = ground arith
  Step-Inv (locked s c h) v = ground arith
  Step-Inv (forced s) v = ground arith

  -- Whatever the interleaving of concurrent calls and resets, a breaker that started with a
  -- positive threshold and fewer failures than it never stays closed with as many failures counted
  -- as the threshold.
  Reach-Inv : {s t : Shared} → Inv s → Reach E s t → Inv t
  Reach-Inv v here = v
  Reach-Inv v (next r st) = Step-Inv st (Reach-Inv v r)

  finish_stays :
      (cb : CircuitBreaker) (now : ℕ) (result : Option E)
      → cb.state ≡ open_state
      → (finish_closed cb now result).0.state ≡ open_state
  unfolding finish_closed
  finish_stays cb now none o = ground arith
  finish_stays cb now (some e) o = ground arith

  waited :
      (cb : CircuitBreaker) (c : Call E)
      → cb.state ≡ open_state
      → (execute cb c).0.state ≢ open_state
      → cb.timeout ≤ c.now - cb.last_failure
  unfolding execute
  waited cb c o l = ground arith

  -- A breaker leaves the open state only by a reset or by a probe that began once the timeout had
  -- passed: neither the end of a call that was in flight nor an early call opens the way.
  pub Step-Leaves_open :
      {s t : Shared}
      → Step E s t
      → s.breaker.state ≡ open_state
      → t.breaker.state ≢ open_state
      → Leaves E s t
  Step-Leaves_open (start s h) o l = absurd (l o)
  Step-Leaves_open (finish s n now result h) o l = absurd (l (finish_stays s.breaker now result o))
  Step-Leaves_open (locked s c h) o l = inr (c, waited s.breaker c o l, refl)
  Step-Leaves_open (forced s) o l = inl refl
