-- ===== src/Registration/Service/Manual.antt =====
-- internal/registration/service.go: what registrations and synchronizations leave of the
-- classifications that an administrator has set.
use cruvero_mcp_gateway.Prelude.{
  ℕ, ◌≡◌, refl, ◌∙◌, true, List, [], ◌∷◌, Option, ok, err, inl, inr, arith, Bool-cases,
  Result-cases,
}
use cruvero_mcp_gateway.Prelude.Texts.{Text, text_eq}
use cruvero_mcp_gateway.Prelude.Maps.{lookup}
use cruvero_mcp_gateway.Types.{Capability, ServerRecord}
use cruvero_mcp_gateway.Identity.{Identity, Urls}
use cruvero_mcp_gateway.Registration.Config.{Config}
use cruvero_mcp_gateway.Registration.Settings.{Settings}
use cruvero_mcp_gateway.Registration.Request.{Ips, RegistrationRequest}
use cruvero_mcp_gateway.Registration.Tools.{ToolFaults, is_manual, sync_classifications}
use cruvero_mcp_gateway.Registration.Tools.Manual.{
  classify_new_tools_keeps, sync_classifications_keeps,
}
use cruvero_mcp_gateway.Registration.Service.{
  Effect, Outputs, Meeting, Tables, RegistrationResponse, register, admit, save, new_record,
}

-- A registration, or a synchronization over the servers that the store lists.
pub data Operation : Type 0 where
  registers : List Text → Meeting → Option Identity → RegistrationRequest → Operation
  synchronizes : ToolFaults → ℕ → List ServerRecord → Operation

module _ {N : Type 0} (urls : Urls) (ips : Ips) (digest : Capability → Text) (cfg : Option Config)
    (settings : Settings N) (out : Outputs) where
  -- A registration that is refused changes nothing.
  pub step : Tables → Operation → Tables
  step t (registers allow_list m caller req) =
      elim (register urls ips digest cfg settings out allow_list m t caller req) [
        | ok answer ↦ answer.1
        | err e ↦ t
      ]
  step t (synchronizes faults now servers) = record t {
    classifications = sync_classifications faults now servers t.classifications;
  }

  pub run : Tables → List Operation → Tables
  run t [] = t
  run t (o ∷ os) = run (step t o) os

  abbrev IsKept : Text → Tables → Tables → Type 0
  IsKept asked t t' = lookup asked t'.classifications ≡ lookup asked t.classifications

  register_keeps :
      (asked : Text) (allow_list : List Text) (m : Meeting) (t : Tables) (caller : Option Identity)
      (req : RegistrationRequest) (answer : RegistrationResponse N × Tables × List Effect)
      → is_manual (lookup asked t.classifications) ≡ true
      → register urls ips digest cfg settings out allow_list m t caller req ≡ ok answer
      → IsKept asked t answer.1
  unfolding register
  register_keeps asked allow_list m t caller req answer manual h =
      elim (Result-cases (admit urls ips digest allow_list caller req)) [
        | inr (e, refused) ↦ ground arith
        | inl (who, admitted) ↦
            elim (Result-cases (save m t.servers (new_record digest cfg m who req))) [
              | inr (e, failed) ↦ ground arith
              | inl (saved, written) ↦
                  let kept =
                    classify_new_tools_keeps m.tool_faults who.id m.now req.capabilities.tools
                      t.classifications asked manual in
                  elim (Bool-cases out.has_classification_store) [
                    | inl stores ↦ ground (arith, kept)
                    | inr no_store ↦ ground arith
                  ]
            ]
      ]

  step_keeps :
      (asked : Text) (t : Tables) (o : Operation)
      → is_manual (lookup asked t.classifications) ≡ true
      → IsKept asked t (step t o)
  unfolding step
  step_keeps asked t (synchronizes faults now servers) manual =
      sync_classifications_keeps faults now servers t.classifications asked manual
  step_keeps asked t (registers allow_list m caller req) manual =
      elim (Result-cases (register urls ips digest cfg settings out allow_list m t caller req)) [
        | inr (e, refused) ↦ rw (step, refused) refl
        | inl (answer, taken) ↦
            rw (step, taken) (register_keeps asked allow_list m t caller req answer manual taken)
      ]

  -- A classification that an administrator has set is as it was after any registrations and
  -- synchronizations, accepted or refused, whatever tools the servers list.
  pub run_keeps_manual :
      (asked : Text) (t : Tables) (os : List Operation)
      → is_manual (lookup asked t.classifications) ≡ true
      → lookup asked (run t os).classifications ≡ lookup asked t.classifications
  unfolding run
  run_keeps_manual asked t [] manual = refl
  run_keeps_manual asked t (o ∷ os) manual =
      let kept = step_keeps asked t o manual in
      run_keeps_manual asked (step t o) os (rw kept manual) ∙ kept
