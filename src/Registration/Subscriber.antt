-- ===== src/Registration/Subscriber.antt =====
-- internal/registration/subscriber.go, classification_subscriber.go: what a gateway does with the
-- broadcasts of the others; and refresh_handler.go, a refresh that a server pushes.
pub mod Replicas
pub mod Window
use cruvero_mcp_gateway.Prelude.{
  ℕ, suc, ◌+◌, Bool, true, false, Option, none, some, ◌==◌, if◌then◌else◌, is_empty, ltb, leb, ok,
  err, List, not, ◌||◌, [],
}
use cruvero_mcp_gateway.Prelude.Texts.{Text, text_eq, codes, trim_space}
use cruvero_mcp_gateway.Prelude.Maps.{Map, lookup, insert}
use cruvero_mcp_gateway.Registration.Index.{CapabilityIndex, remove}
use cruvero_mcp_gateway.Registration.Store.{Table, Fault, get}
use cruvero_mcp_gateway.Registration.Service.{Outputs, Effect}
use cruvero_mcp_gateway.Registration.Heartbeat.{
  Registry, Moment, ToolLister, reindexed, push_refresh,
}
use cruvero_mcp_gateway.Identity.{Identity}

-- A decoded broadcast; one that does not decode changes nothing.
pub record RegistrationEvent : Type 0 where
  pub event_type : Text
  pub server_id : Text

-- `RegistrationSubscriber.handle`: the index after the broadcast.
unfoldable pub handle : Fault → Table → CapabilityIndex → Option RegistrationEvent → CapabilityIndex
unfolding reindexed remove
handle f rows i none = i
handle f rows i (some e) =
    let id = trim_space e.server_id in
    if is_empty id
    then i
    else if e.event_type == codes "registered" || e.event_type == codes "status_changed"
    then reindexed f id rows i
    else if e.event_type == codes "deregistered"
    then remove i id
    else i

-- The refreshes of one server in a window of time.
pub record RateBucket : Type 0 where
  pub count : ℕ
  pub window_end : ℕ

abbrev pub refresh_rate_limit : ℕ
refresh_rate_limit = 10

abbrev pub refresh_rate_window : ℕ
refresh_rate_window = 60_000_000_000

unfoldable pub allow_request : ℕ → Map Text RateBucket → Text → Bool × Map Text RateBucket
allow_request now counters id =
    let fresh = insert id (record { count = 1; window_end = now + refresh_rate_window }) counters in
    elim (lookup id counters) [
      | none ↦ (true, fresh)
      | some b ↦
          if ltb b.window_end now
          then (true, fresh)
          else if leb refresh_rate_limit b.count
          then (false, counters)
          else (true, insert id (record b { count = suc b.count }) counters)
    ]

pub data Reply : Type 0 where
  bad_request unauthorized not_found forbidden too_many internal_error : Reply
  refreshed : List Text → Reply

-- `RefreshHandler.ServeHTTP`: the answer, the counters, the registry and what is told.
unfoldable pub serve_refresh :
    Outputs
    → Moment
    → Option ToolLister
    → Fault
    → Map Text RateBucket
    → Registry
    → Option Identity
    → Text
    → Reply × Map Text RateBucket × Registry × List Effect
unfolding get allow_request push_refresh
serve_refresh out m lister f counters reg caller raw =
    let id = trim_space raw in
    if is_empty id then (bad_request, counters, reg, []) else elim caller [
      | none ↦ (unauthorized, counters, reg, [])
      | some who ↦ elim (get f id reg.servers) [
        | err e ↦ (not_found, counters, reg, [])
        | ok r ↦
            if not (who.id == r.spiffe_id)
            then (forbidden, counters, reg, [])
            else let (allowed, counters') = allow_request m.now counters id in
              if not allowed
              then (too_many, counters', reg, [])
              else elim (push_refresh out m lister id reg) [
                | err e ↦ (internal_error, counters', reg, [])
                | ok (names, reg', told) ↦ (refreshed names, counters', reg', told)
              ]
      ]
    ]
