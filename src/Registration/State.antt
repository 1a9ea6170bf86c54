-- ===== src/Registration/State.antt =====
-- internal/registration/state.go: the transitions of a registration.
use cruvero_mcp_gateway.Prelude.{
  ℕ, suc, ◌≤◌, ◌≡◌, refl, ◌↔◌, ◌⊎◌, inl, inr, Bool, true, false, List, [], ◌∷◌, arith, Result, ok,
  err,
}
use cruvero_mcp_gateway.Prelude.Texts.{Text}
use cruvero_mcp_gateway.Types.{
  ServerStatus, pending, approved, active, stale, expired, other_status, is_terminal, is_routable,
}

pub data Event : Type 0 where
  heartbeat heartbeat_missed expiry approval deregistered : Event
  other_event : Text → Event

pub record InvalidTransition : Type 0 where
  pub status : ServerStatus
  pub event : Event

-- The table of `Transition`; what it does not list is an error.
unfoldable pub transition : ServerStatus → Event → Result InvalidTransition ServerStatus
transition pending approval = ok approved
transition pending heartbeat = ok active
transition pending expiry = ok expired
transition approved heartbeat = ok active
transition approved expiry = ok expired
transition active heartbeat = ok active
transition active heartbeat_missed = ok stale
transition active expiry = ok expired
transition stale heartbeat = ok active
transition stale heartbeat_missed = ok expired
transition stale expiry = ok expired
transition pending deregistered = ok expired
transition approved deregistered = ok expired
transition active deregistered = ok expired
transition stale deregistered = ok expired
transition expired deregistered = ok expired
transition expired heartbeat_missed = ok expired
transition expired expiry = ok expired
transition s e = err (record { status = s; event = e })

-- A caller keeps the old status where the transition is refused.
abbrev after : ServerStatus → Result InvalidTransition ServerStatus → ServerStatus
after s (ok t) = t
after s (err e) = s

-- The statuses that a sequence of events leads through, the last of them.
pub run : ServerStatus → List Event → ServerStatus
run s [] = s
run s (e ∷ es) = run (after s (transition s e)) es

abbrev pub is_heartbeat : Event → Bool
is_heartbeat heartbeat = true
is_heartbeat _ = false

abbrev pub is_miss : Event → Bool
is_miss heartbeat_missed = true
is_miss _ = false

abbrev pub IsKnown : ServerStatus → Type 0
IsKnown (other_status s) = ⊥
IsKnown _ = Unit

abbrev pub beats : List Event → ℕ
beats [] = 0
beats (heartbeat ∷ es) = suc (beats es)
beats (_ ∷ es) = beats es

abbrev pub misses : List Event → ℕ
misses [] = 0
misses (heartbeat_missed ∷ es) = suc (misses es)
misses (_ ∷ es) = misses es

step_of_expired : (e : Event) → after expired (transition expired e) ≡ expired
unfolding transition
step_of_expired heartbeat = refl
step_of_expired _ = refl

run_of_expired : (es : List Event) → run expired es ≡ expired
unfolding run
run_of_expired [] = refl
run_of_expired (e ∷ es) = rw (step_of_expired e) (run_of_expired es)

-- A status is terminal exactly when it is a known one that no sequence of events can leave:
-- every other known status is taken to `expired` by a deregistration.
is_terminal_iff :
    (s : ServerStatus) → IsKnown s → (is_terminal s ≡ true) ↔ ((es : List Event) → run s es ≡ s)
unfolding is_terminal run transition
is_terminal_iff expired k = (λ _ es. run_of_expired es, λ _. refl)
is_terminal_iff pending k = (λ h. cc, λ h. cc (h (deregistered ∷ [])))
is_terminal_iff approved k = (λ h. cc, λ h. cc (h (deregistered ∷ [])))
is_terminal_iff active k = (λ h. cc, λ h. cc (h (deregistered ∷ [])))
is_terminal_iff stale k = (λ h. cc, λ h. cc (h (deregistered ∷ [])))
is_terminal_iff (other_status t) k = absurd k

-- How many missed heartbeats a registration survives.
abbrev lives : ServerStatus → ℕ
lives active = 2
lives stale = 1
lives _ = 0

abbrev IsBeating : ServerStatus → Type 0
IsBeating s = (s ≡ active) ⊎ (s ≡ stale) ⊎ (s ≡ expired)

run_of_misses :
    (s : ServerStatus) (es : List Event)
    → IsBeating s
    → beats es ≡ 0
    → lives s ≤ misses es
    → run s es ≡ expired
unfolding run transition
run_of_misses active [] b n h = ground arith
run_of_misses stale [] b n h = ground arith
run_of_misses expired es b n h = run_of_expired es
run_of_misses pending es b n h = ground arith
run_of_misses approved es b n h = ground arith
run_of_misses (other_status t) es b n h = ground arith
run_of_misses active (heartbeat ∷ es) b n h = ground arith
run_of_misses active (heartbeat_missed ∷ es) b n h =
    run_of_misses stale es (inr (inl refl)) n (omega arith)
run_of_misses active (expiry ∷ es) b n h = run_of_expired es
run_of_misses active (approval ∷ es) b n h = run_of_misses active es b n h
run_of_misses active (deregistered ∷ es) b n h = run_of_expired es
run_of_misses active (other_event t ∷ es) b n h = run_of_misses active es b n h
run_of_misses stale (heartbeat ∷ es) b n h = ground arith
run_of_misses stale (heartbeat_missed ∷ es) b n h = run_of_expired es
run_of_misses stale (expiry ∷ es) b n h = run_of_expired es
run_of_misses stale (approval ∷ es) b n h = run_of_misses stale es b n h
run_of_misses stale (deregistered ∷ es) b n h = run_of_expired es
run_of_misses stale (other_event t ∷ es) b n h = run_of_misses stale es b n h

-- An active server that misses two heartbeats with none received in between is expired, whatever
-- the other events are and however they interleave.
run-misses : (es : List Event) → beats es ≡ 0 → 2 ≤ misses es → run active es ≡ expired
run-misses es n h = run_of_misses active es (inl refl) n h

step_not_routable :
    (s : ServerStatus) (e : Event) (es : List Event)
    → is_routable s ≡ false
    → beats (e ∷ es) ≡ 0
    → (is_routable (after s (transition s e)) ≡ false) × (beats es ≡ 0)
unfolding transition is_routable
step_not_routable s e es r n = ground arith

-- A server becomes routable through a heartbeat only: from a status that is not routable, events
-- without a heartbeat lead to none that is.
routable_needs_heartbeat :
    (s : ServerStatus) (es : List Event)
    → is_routable s ≡ false
    → beats es ≡ 0
    → is_routable (run s es) ≡ false
unfolding run
routable_needs_heartbeat s [] r n = r
routable_needs_heartbeat s (e ∷ es) r n =
    let (q, m) = step_not_routable s e es r n in
    routable_needs_heartbeat (after s (transition s e)) es q m
