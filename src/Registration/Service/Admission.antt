-- ===== src/Registration/Service/Admission.antt =====
-- internal/registration/service.go: who may register, deregister or be heard.
use cruvero_mcp_gateway.Prelude.{
  ◌≡◌, refl, ◌⊎◌, inl, inr, true, List, Option, none, some, ◌==◌, if◌then◌else◌, is_empty, ok,
  Result-cases, keep, not, eq_iff, arith, sym,
}
use cruvero_mcp_gateway.Prelude.Texts.{Text, text_eq}
use cruvero_mcp_gateway.Types.{ServerRecord}
use cruvero_mcp_gateway.Identity.{
  Identity, Urls, mtls, has_scope, scope_admin, parse_spiffe_id, prefix_allows,
}
use cruvero_mcp_gateway.Registration.Config.{Config}
use cruvero_mcp_gateway.Registration.Settings.{Settings}
use cruvero_mcp_gateway.Registration.Request.{Ips, RegistrationRequest}
use cruvero_mcp_gateway.Registration.Request.Validity.{IsValidRequest}
use cruvero_mcp_gateway.Registration.Store.{Table, Fault, get, delete}
use cruvero_mcp_gateway.Registration.Store.Rows.{row_at, row_at-keep, read_row, get_row}
use cruvero_mcp_gateway.Registration.Service.{Effect, Outputs, may_deregister, deregister}

-- A caller with a client certificate, with a SPIFFE id that the list of prefixes allows, and a
-- request that validates.
abbrev pub IsAdmitted : Urls → Ips → List Text → Option Identity → RegistrationRequest → Type 0
IsAdmitted urls ips allow_list caller req =
    (who : Identity) × (caller ≡ some who)
    × (who.kind ≡ mtls)
    × ((parts : Text × Text) × (parse_spiffe_id urls who.id ≡ ok parts))
    × ((is_empty allow_list ≡ true) ⊎ (prefix_allows urls who.id allow_list ≡ true))
    × IsValidRequest ips req

-- The caller is an administrator, or shows the certificate of the server itself.
abbrev pub MayDeregister : Identity → ServerRecord → Type 0
MayDeregister who row =
    (has_scope (some who) scope_admin ≡ true) ⊎ ((who.kind ≡ mtls) × (who.id ≡ row.spiffe_id))

may_deregister-MayDeregister :
    (who : Identity) (row : ServerRecord)
    → may_deregister who (read_row row) ≡ true
    → MayDeregister who row
unfolding may_deregister
may_deregister-MayDeregister who row h = ground (arith, eq_iff who.id row.spiffe_id)

-- Where a deregistration succeeds, there is a row with the id, the caller is an administrator or
-- the server of that row, and the table has lost that row and no other.
pub deregister-MayDeregister :
    (out : Outputs) (f g : Fault) (rows rows' : Table) (caller : Option Identity) (id : Text)
    (told : List Effect)
    → deregister out f g rows caller id ≡ ok (rows', told)
    → (who : Identity) × (row : ServerRecord) × (caller ≡ some who)
      × (row_at id rows ≡ some row)
      × MayDeregister who row
      × ((k : Text) → row_at k rows' ≡ (if k == id then none else row_at k rows))
unfolding deregister delete
deregister-MayDeregister out f g rows rows' none id told h = ground arith
deregister-MayDeregister out f (some e) rows rows' (some who) id told h = ground arith
deregister-MayDeregister out f none rows rows' (some who) id told h =
    elim (Result-cases (get f id rows)) [
      | inr (e, failed) ↦ ground arith
      | inl (r, found) ↦
          let (row, held, same) = get_row f id rows r found in
          let may : may_deregister who r ≡ true = ground arith in
          let left : keep (λ row. not (row.id == id)) rows ≡ rows' = ground arith in
          (
            who,
            row,
            refl,
            held,
            may_deregister-MayDeregister who row (rw (sym same) may),
            λ k. rw (sym left) (row_at-keep id k rows),
          )
    ]
