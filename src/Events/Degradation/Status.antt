-- ===== src/Events/Degradation/Status.antt =====
-- internal/events/degradation.go: the status after any events.
use cruvero_mcp_gateway.Prelude.{
  ◌≡◌, refl, inl, inr, Bool, true, false, ◌||◌, List, [], ◌∷◌, Option, none, some, if◌then◌else◌,
  ok, err, ap, ◌∙◌, arith, Result-cases,
}
use cruvero_mcp_gateway.Prelude.Int.{ℤ}
use cruvero_mcp_gateway.Prelude.Texts.{Text}
use cruvero_mcp_gateway.Prelude.Maps.{Map}
use cruvero_mcp_gateway.Events.Degradation.{
  DegradationStatus, connected, degraded, disconnected, DegradationManager, ConfigCache,
  new_degradation_manager, on_disconnect, on_reconnect, loaded, load_cached_config,
  apply_cached_state,
}

pub data Event : Type 0 where
  lost : Event
  back : Bool → Event
  loads : ConfigCache → Event

pub step : DegradationManager → Event → DegradationManager
step m lost = on_disconnect m
step m (back is_connected) = (on_reconnect is_connected m).0
step m (loads cache) = (load_cached_config cache m).0

pub run : DegradationManager → List Event → DegradationManager
run m [] = m
run m (e ∷ es) = run (step m e) es

-- Whether the last change of the connection left it up, if it has changed.
pub last_link : Option Bool → List Event → Option Bool
last_link l [] = l
last_link l (lost ∷ es) = last_link (some false) es
last_link l (back is_connected ∷ es) = last_link (some true) es
last_link l (loads cache ∷ es) = last_link l es

-- Whether a load finds a key and goes through.
pub finds_config : ConfigCache → Bool
finds_config cache = elim (loaded cache) [ err e ↦ false | ok found ↦ found.has_keys ]

pub was_cached : Bool → List Event → Bool
was_cached before [] = before
was_cached before (loads cache ∷ es) = was_cached (before || finds_config cache) es
was_cached before (lost ∷ es) = was_cached before es
was_cached before (back is_connected ∷ es) = was_cached before es

pub was_back : Bool → List Event → Bool
was_back before [] = before
was_back before (back is_connected ∷ es) = was_back true es
was_back before (lost ∷ es) = was_back before es
was_back before (loads cache ∷ es) = was_back before es

pub status_of : Option Bool → Bool → DegradationStatus
status_of (some true) cached = connected
status_of (some false) cached = degraded
status_of none cached = if cached then degraded else disconnected

or_false : (b : Bool) → (b || false) ≡ b
or_false true = refl
or_false false = refl

status_of-applied :
    (m : DegradationManager) (l : Option Bool) (cached has_keys : Bool) (versions : Map Text ℤ)
    (settings : ℤ)
    → m.status ≡ status_of l cached
    → (apply_cached_state versions settings has_keys m).status ≡ status_of l (cached || has_keys)
unfolding apply_cached_state status_of
status_of-applied m (some true) cached has_keys versions settings h = ground arith
status_of-applied m (some false) cached has_keys versions settings h = ground arith
status_of-applied m none true has_keys versions settings h = ground arith
status_of-applied m none false true versions settings h = ground arith
status_of-applied m none false false versions settings h = ground arith

status_of-loads :
    (m : DegradationManager) (cache : ConfigCache) (l : Option Bool) (cached : Bool)
    → m.status ≡ status_of l cached
    → (load_cached_config cache m).0.status ≡ status_of l (cached || finds_config cache)
unfolding load_cached_config finds_config
status_of-loads m cache l cached h = elim (Result-cases (loaded cache)) [
  | inl (found, ok_load) ↦
      rw (load_cached_config, finds_config, ok_load)
        (status_of-applied m l cached found.has_keys found.versions found.settings h)
  | inr (e, failed) ↦ rw (load_cached_config, finds_config, failed, or_false cached) h
]

status_of-run :
    (m : DegradationManager) (l : Option Bool) (cached : Bool) (es : List Event)
    → m.status ≡ status_of l cached
    → (run m es).status ≡ status_of (last_link l es) (was_cached cached es)
unfolding run step last_link was_cached on_disconnect on_reconnect status_of
status_of-run m l cached [] h = h
status_of-run m l cached (lost ∷ es) h = status_of-run (step m lost) (some false) cached es refl
status_of-run m l cached (back is_connected ∷ es) h =
    status_of-run (step m (back is_connected)) (some true) cached es refl
status_of-run m l cached (loads cache ∷ es) h =
    status_of-run (step m (loads cache)) l (cached || finds_config cache) es
      (status_of-loads m cache l cached h)

ever_connected-loads :
    (m : DegradationManager) (cache : ConfigCache)
    → (load_cached_config cache m).0.ever_connected ≡ m.ever_connected
unfolding load_cached_config apply_cached_state
ever_connected-loads m cache = elim (Result-cases (loaded cache)) [
  | inl (found, h) ↦ rw (load_cached_config, h) refl
  | inr (e, h) ↦ rw (load_cached_config, h) refl
]

ever_connected-run :
    (m : DegradationManager) (es : List Event)
    → (run m es).ever_connected ≡ was_back m.ever_connected es
unfolding run step was_back on_disconnect on_reconnect
ever_connected-run m [] = refl
ever_connected-run m (lost ∷ es) = ever_connected-run (step m lost) es
ever_connected-run m (back is_connected ∷ es) = ever_connected-run (step m (back is_connected)) es
ever_connected-run m (loads cache ∷ es) =
    ever_connected-run (load_cached_config cache m).0 es
    ∙ ap (λ b. was_back b es) (ever_connected-loads m cache)

new-status :
    (is_connected : Bool)
    → (new_degradation_manager is_connected).status
      ≡ status_of (if is_connected then some true else none) false
unfolding new_degradation_manager status_of
new-status true = refl
new-status false = refl

-- Whatever connections come and go and whatever is loaded: the status is connected or degraded by
-- the last change of the connection; before any change of a connection that was never up, it is
-- degraded from the first load on that goes through with a key, and disconnected until then; and a
-- connection has been up exactly if it was at the start or came back.
pub run-new-status_of :
    (is_connected : Bool) (es : List Event)
    → let m = run (new_degradation_manager is_connected) es in
      (m.status
        ≡ status_of (last_link (if is_connected then some true else none) es) (was_cached false es))
      × (m.ever_connected ≡ was_back is_connected es)
unfolding new_degradation_manager status_of
run-new-status_of is_connected es = (
  status_of-run (new_degradation_manager is_connected) (if is_connected then some true else none)
      false es (new-status is_connected),
  ever_connected-run (new_degradation_manager is_connected) es,
)
