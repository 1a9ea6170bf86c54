-- ===== src/Registration/Tools/Manual.antt =====
-- What the automatic classification leaves alone.
use cruvero_mcp_gateway.Prelude.{
  ℕ, ◌≡◌, refl, ◌∙◌, true, List, [], ◌∷◌, some, arith, if◌then◌else◌, eq_iff, ◌==◌,
}
use cruvero_mcp_gateway.Prelude.Texts.{Text, text_eq, trim_space, trim_space_idem}
use cruvero_mcp_gateway.Prelude.Maps.{lookup, lookup-insert}
use cruvero_mcp_gateway.Types.{ServerRecord}
use cruvero_mcp_gateway.Registration.Tools.{
  Classifications, ToolFaults, get, upsert, is_manual, classification_of, classify_tool,
  classify_new_tools, sync_classifications,
}

lookup-upsert :
    (table : Classifications) (raw caller asked : Text) (now : ℕ)
    → lookup asked (upsert table (classification_of (trim_space raw) caller now)) ≡ (
        if trim_space raw == asked
        then some (classification_of (trim_space raw) caller now)
        else lookup asked table)
unfolding upsert classification_of
lookup-upsert table raw caller asked now =
    rw (trim_space_idem raw) (lookup-insert (trim_space raw) asked _ table)

classify_tool_keeps :
    (faults : ToolFaults) (caller : Text) (now : ℕ) (table : Classifications) (raw asked : Text)
    → is_manual (lookup asked table) ≡ true
    → lookup asked (classify_tool faults caller now table raw).0 ≡ lookup asked table
unfolding classify_tool get
classify_tool_keeps faults caller now table raw asked h = ground (
  arith,
  lookup-upsert table raw caller asked now,
  trim_space_idem raw,
  eq_iff (trim_space raw) asked,
)

pub classify_new_tools_keeps :
    (faults : ToolFaults) (caller : Text) (now : ℕ) (tools : List Text) (table : Classifications)
    (asked : Text)
    → is_manual (lookup asked table) ≡ true
    → lookup asked (classify_new_tools faults caller now tools table).0 ≡ lookup asked table
unfolding classify_new_tools
classify_new_tools_keeps faults caller now [] table asked h = refl
classify_new_tools_keeps faults caller now (raw ∷ tools) table asked h =
    let k = classify_tool_keeps faults caller now table raw asked h in
    classify_new_tools_keeps faults caller now tools (classify_tool faults caller now table raw).0
      asked (rw k h)
    ∙ k

-- A classification that an administrator has set is never touched by the automatic one, whatever
-- servers register or are synchronized and whatever tools they list.
pub sync_classifications_keeps :
    (faults : ToolFaults) (now : ℕ) (servers : List ServerRecord) (table : Classifications)
    (asked : Text)
    → is_manual (lookup asked table) ≡ true
    → lookup asked (sync_classifications faults now servers table) ≡ lookup asked table
unfolding sync_classifications
sync_classifications_keeps faults now [] table asked h = refl
sync_classifications_keeps faults now (s ∷ ss) table asked h =
    let k = classify_new_tools_keeps faults s.spiffe_id now s.capabilities.tools table asked h in
    sync_classifications_keeps faults now ss
      (classify_new_tools faults s.spiffe_id now s.capabilities.tools table).0 asked (rw k h)
    ∙ k
