-- ===== src/Scenarios/Registry.antt =====
-- Two servers of the registry (internal/registration), with tools and resources in common.
use cruvero_mcp_gateway.Prelude.{◌≡◌, refl, List, [], ◌∷◌, none, some, ok, if◌then◌else◌, ◌==◌, ℕ}
use cruvero_mcp_gateway.Prelude.Int.{pos}
use cruvero_mcp_gateway.Prelude.Texts.{Text, codes, text_eq, trim_space}
use cruvero_mcp_gateway.Types.{ServerRecord, ServerStatus, active, unacked}
use cruvero_mcp_gateway.Registration.Index.{
  CapabilityIndex, new_capability_index, add, rebuild, refresh_server, remove_locked,
}
use cruvero_mcp_gateway.Registration.Index.Content.{
  offered, refreshed, offered-refresh_server, offered-rebuild, last_offer,
}
use cruvero_mcp_gateway.Registration.Index.Content.Invariant.{
  IsIndex, adds, removes, refreshes, run as apply_all, run-new-IsIndex,
}

abbrev pub server : Text → ServerStatus → List Text → ServerRecord
server id status tools = record {
  id = id;
  name = id;
  spiffe_id = [];
  version = codes "1";
  host = codes "h";
  port = pos 80;
  protocol = codes "http";
  capabilities = record {
    tools = tools;
    resources = codes "file:" ∷ codes "file:a" ∷ [];
    prompts = [];
  };
  status = status;
  policy_profile = [];
  last_heartbeat = none;
  lease_epoch = pos 1;
  capability_hash = [];
  sync_state = unacked;
  last_platform_ack_version = [];
  last_platform_ack_at = none;
  rate_limit = none;
  rate_burst = none;
  routing_strategy = [];
  created_at = 0;
  updated_at = 0;
}

abbrev pub one : ServerRecord
one = server (codes "one") active (codes "read" ∷ codes "list" ∷ [])

abbrev pub two : ServerRecord
two = server (codes "two") active (codes " read" ∷ [])

abbrev newer : ServerRecord
newer = server (codes "one") active (codes "list" ∷ [])

abbrev index : CapabilityIndex
index = apply_all {E = ℕ} new_capability_index (adds one ∷ adds two ∷ [])

index-IsIndex : IsIndex index
index-IsIndex = run-new-IsIndex (adds one ∷ adds two ∷ [])

abbrev pub read : Text
read = codes "read"

offered-refresh_server_example :
    offered (add (remove_locked index (codes "one")) newer) read (codes "two") ≡ (
      if codes "one" == codes "two"
      then refreshed (some newer) read
      else offered index read (codes "two"))
unfolding refresh_server trim_space
offered-refresh_server_example =
    offered-refresh_server {E = ℕ} index (add (remove_locked index (codes "one")) newer)
      (codes "one") read (codes "two") (some newer) index-IsIndex.good_tools.1 refl refl

offered-rebuild_example :
    offered (rebuild index (newer ∷ two ∷ [])) read (codes "one")
    ≡ last_offer (newer ∷ two ∷ []) read (codes "one") none
offered-rebuild_example = offered-rebuild index (newer ∷ two ∷ []) read (codes "one")

run-new-IsIndex_example : IsIndex (
    apply_all {E = ℕ} new_capability_index (
      adds one ∷ adds two ∷ refreshes (codes "one") (ok (some newer)) ∷ removes (codes "two") ∷ []))
run-new-IsIndex_example =
    run-new-IsIndex {E = ℕ}
      (adds one ∷ adds two ∷ refreshes (codes "one") (ok (some newer)) ∷ removes (codes "two") ∷ [])
