-- ===== src/Scenarios/Registrations.antt =====
-- A server registers with a gateway, again and for good (internal/registration/service.go).
use cruvero_mcp_gateway.Prelude.{
  ℕ, ◌≡◌, refl, true, false, List, [], ◌∷◌, Option, none, some, ok, value_or, ◌==◌, if◌then◌else◌,
}
use cruvero_mcp_gateway.Prelude.Int.{pos}
use cruvero_mcp_gateway.Prelude.Texts.{Text, codes, text_eq}
use cruvero_mcp_gateway.Types.{ServerRecord, Capability}
use cruvero_mcp_gateway.Identity.{Identity, mtls, Urls}
use cruvero_mcp_gateway.Registration.Config.{hash_capabilities}
use cruvero_mcp_gateway.Registration.Config.Order.{hash_capabilities-Perm}
use cruvero_mcp_gateway.Registration.Settings.{Settings}
use cruvero_mcp_gateway.Registration.Request.{Ips, RegistrationRequest}
use cruvero_mcp_gateway.Registration.Store.{Table}
use cruvero_mcp_gateway.Registration.Store.Rows.{row_at}
use cruvero_mcp_gateway.Registration.Service.{
  response, Outputs, Meeting, Tables, RegistrationResponse, Effect, register, save, new_record,
  deregister,
}
use cruvero_mcp_gateway.Registration.Service.Admission.{deregister-MayDeregister, MayDeregister}
use cruvero_mcp_gateway.Registration.Service.Epochs.{save-creates, Describes}
use mathlib.Core.List.Perm
use cruvero_mcp_gateway.Prelude.Maps.{lookup}
use cruvero_mcp_gateway.Types.{read_only}
use cruvero_mcp_gateway.Registration.Tools.{Classifications}
use cruvero_mcp_gateway.Registration.Service.Manual.{
  Operation, registers, synchronizes, run, run_keeps_manual,
}

abbrev pub urls : Urls
urls = record {
  parse =
      λ s. some (record { scheme = codes "spiffe"; host = codes "a"; escaped_path = codes "/s" });
  clean = λ path. path;
}

abbrev ips : Ips
ips = record {
  Ip = Text;
  parse_ip = λ s. if s == codes "127.0.0.1" then some s else none;
  to4 = λ ip. some ip;
  is_loopback = λ ip. ip == codes "127.0.0.1";
  is_link_local = λ ip. false;
  is_unspecified = λ ip. false;
  same_ip = λ a b. a == b;
}

abbrev digest : Capability → Text
digest c = codes "d"

abbrev pub caller : Identity
caller = record { kind = mtls; id = codes "spiffe://a/s"; scopes = []; metadata = [] }

abbrev request : RegistrationRequest
request = record {
  service_name = codes "svc";
  version = codes "1";
  listen = record { host = codes "h"; port = pos 80; protocol = codes "http" };
  capabilities = record { tools = codes "read" ∷ []; resources = []; prompts = [] };
}

abbrev pub settings : Settings ℕ
settings = record { version = pos 1; by_server = [] }

abbrev pub outputs : Outputs
outputs = record {
  has_audit_store = true;
  has_publisher = true;
  has_broadcaster = true;
  has_classification_store = true;
}

abbrev meeting : Meeting
meeting = record {
  now = 5;
  new_uuid = codes "u";
  db_id = codes "d1";
  lookup_fault = none;
  write_fault = none;
  tool_faults = record { get_fault = λ name. false; upsert_fault = λ name. false };
}

abbrev allow_list : List Text
allow_list = codes "spiffe://a/" ∷ []

abbrev pub record_of : Text → ServerRecord
record_of id = record (new_record digest none meeting caller request) { id = id }

abbrev no_tables : Tables
no_tables = record { servers = []; classifications = [] }

abbrev nothing : RegistrationResponse ℕ × Tables × List Effect
nothing = (response none settings (record_of []), no_tables, [])

abbrev answered : RegistrationResponse ℕ × Tables × List Effect
answered = value_or nothing (
    register urls ips digest none settings outputs allow_list meeting no_tables (some caller)
      request)

-- The table after the first registration, and a second one of the same server.
abbrev pub registered : Table
registered =
    record_of (codes "d1") ∷ record (record_of (codes "x")) { spiffe_id = codes "other" } ∷ []

abbrev again : ServerRecord × Table
again = value_or (record_of [], []) (save meeting registered (record_of (codes "u")))

abbrev first : ServerRecord × Table
first = value_or (record_of [], []) (save meeting [] (record_of (codes "u")))

save-creates_example :
    (first.0 ≡ record_of (codes "u"))
    × ((x : ServerRecord) × (row_at (codes "d1") first.1 ≡ some x)
        × Describes (record_of (codes "u")) x)
    × ((k : Text) → (k == codes "d1") ≡ false → row_at k first.1 ≡ row_at k [])
unfolding save new_record row_at
save-creates_example =
    save-creates meeting [] first.1 (record_of (codes "u")) first.0 refl refl refl refl

abbrev gone : Table × List Effect
gone = value_or ([], []) (deregister outputs none none registered (some caller) (codes "d1"))

deregister-MayDeregister_example :
    (who : Identity) × (row : ServerRecord) × (some caller ≡ some who)
    × (row_at (codes "d1") registered ≡ some row)
    × MayDeregister who row
    × ((k : Text) → row_at k gone.0 ≡ (if k == codes "d1" then none else row_at k registered))
unfolding deregister cruvero_mcp_gateway.Prelude.Texts.trim_space
    cruvero_mcp_gateway.Prelude.Texts.text_beq new_record
deregister-MayDeregister_example =
    deregister-MayDeregister outputs none none registered gone.0 (some caller) (codes "d1") gone.1
      refl

hash_capabilities-Perm_example :
    hash_capabilities digest
      (record { tools = codes "b" ∷ codes "a" ∷ []; resources = []; prompts = [] })
    ≡ hash_capabilities digest
        (record { tools = codes "a" ∷ codes "b" ∷ []; resources = []; prompts = [] })
hash_capabilities-Perm_example =
    hash_capabilities-Perm digest
      (record { tools = codes "b" ∷ codes "a" ∷ []; resources = []; prompts = [] })
      (record { tools = codes "a" ∷ codes "b" ∷ []; resources = []; prompts = [] })
      (Perm.swap (codes "a") (codes "b") []) Perm.rfl Perm.rfl

abbrev by_hand : Classifications
by_hand =
    (
      codes "read",
      record {
        tool_name = codes "read";
        risk_level = read_only;
        reason = [];
        auto_classified = false;
        updated_by = codes "me";
        updated_at = 1;
      },
    )
    ∷ []

-- The server registers, and all servers are synchronized.
abbrev operations : List Operation
operations =
    registers allow_list meeting (some caller) request
    ∷ synchronizes (record { get_fault = λ name. false; upsert_fault = λ name. false }) 5 registered
    ∷ []

run_keeps_manual_example :
    lookup
      (codes "read")
      (run urls ips digest none settings outputs
        (record { servers = []; classifications = by_hand })
        operations).classifications
    ≡ lookup (codes "read") by_hand
unfolding lookup cruvero_mcp_gateway.Prelude.Texts.text_beq
run_keeps_manual_example =
    run_keeps_manual urls ips digest none settings outputs (codes "read")
      (record { servers = []; classifications = by_hand }) operations refl
