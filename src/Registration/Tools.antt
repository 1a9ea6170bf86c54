-- ===== src/Registration/Tools.antt =====
-- The classification of the tools that a registration brings: `classifyNewTools` of
-- internal/registration/service.go, over the table of internal/store/tool_classification_store.go.
pub mod Manual
use cruvero_mcp_gateway.Prelude.{
  ℕ, Bool, true, false, not, List, [], ◌∷◌, ◌++◌, Option, none, some, if◌then◌else◌, is_empty,
  Result, ok, err,
}
use cruvero_mcp_gateway.Prelude.Texts.{Text, text_eq, codes, trim_space}
use cruvero_mcp_gateway.Prelude.Maps.{Map, lookup, insert}
use cruvero_mcp_gateway.Types.{
  ServerRecord, ToolClassification, RiskLevel, read_only, write, destructive,
}
use cruvero_mcp_gateway.Policy.Classification.{
  Reason, by_name, by_description, no_keyword, auto_classify,
}

abbrev pub Classifications : Type 0
Classifications = Map Text ToolClassification

-- The errors of the store, by the tool.
pub record ToolFaults : Type 0 where
  pub get_fault : Text → Bool
  pub upsert_fault : Text → Bool

-- SELECT ... WHERE tool_name = $1, none for no row.
unfoldable pub get : Classifications → Text → Option ToolClassification
get table name = lookup (trim_space name) table

-- INSERT ... ON CONFLICT (tool_name) DO UPDATE
unfoldable pub upsert : Classifications → ToolClassification → Classifications
upsert table tc =
    insert (trim_space tc.tool_name) (record tc { tool_name = trim_space tc.tool_name }) table

abbrev pub label_of : RiskLevel → Text
label_of destructive = codes "destructive"
label_of read_only = codes "read-only"
label_of write = codes "write"
label_of _ = []

-- The reason as `AutoClassify` words it.
unfoldable pub reason_text : RiskLevel → Reason → Text
reason_text level (by_name k) = codes "name contains " ++ label_of level ++ codes " keyword: " ++ k
reason_text level (by_description k) =
    codes "description contains " ++ label_of level ++ codes " keyword: " ++ k
reason_text level no_keyword = codes "no classification keywords found"

unfoldable pub classification_of : Text → Text → ℕ → ToolClassification
unfolding auto_classify reason_text
classification_of name caller now =
    let (level, reason) = auto_classify name [] in
    record {
      tool_name = name;
      risk_level = level;
      reason = reason_text level reason;
      auto_classified = true;
      updated_by = caller;
      updated_at = now;
    }

-- Whether an administrator has set the classification.
abbrev pub is_manual : Option ToolClassification → Bool
is_manual none = false
is_manual (some tc) = not tc.auto_classified

-- The body of the loop: the table, and the tools whose classification is broadcast.
unfoldable pub classify_tool :
    ToolFaults → Text → ℕ → Classifications → Text → Classifications × List Text
unfolding get upsert classification_of
classify_tool faults caller now table raw =
    let name = trim_space raw in
    if is_empty name
    then (table, [])
    else if faults.get_fault name
    then (table, [])
    else if is_manual (get table name)
    then (table, [])
    else if faults.upsert_fault name
    then (table, [])
    else (upsert table (classification_of name caller now), name ∷ [])

unfoldable pub classify_new_tools :
    ToolFaults → Text → ℕ → List Text → Classifications → Classifications × List Text
unfolding classify_tool
classify_new_tools faults caller now [] table = (table, [])
classify_new_tools faults caller now (raw ∷ tools) table =
    let (one, told) = classify_tool faults caller now table raw in
    let (all, rest) = classify_new_tools faults caller now tools one in (all, told ++ rest)

-- `SyncClassifications`
unfoldable pub sync_classifications :
    ToolFaults → ℕ → List ServerRecord → Classifications → Classifications
unfolding classify_new_tools
sync_classifications faults now [] table = table
sync_classifications faults now (s ∷ servers) table =
    sync_classifications faults now servers
      (classify_new_tools faults s.spiffe_id now s.capabilities.tools table).0
