-- ===== src/Policy/Dangerous.antt =====
-- internal/policy/dangerous.go: the search for dangerous patterns in the arguments. A compiled
-- pattern and its match are package regexp's, so parameters.
pub mod Coverage
use cruvero_mcp_gateway.Prelude.{Bool, List, [], ◌∷◌, ◌++◌, Option, none, some, if◌then◌else◌}
use cruvero_mcp_gateway.Prelude.Texts.{Text, codes}
use cruvero_mcp_gateway.Policy.Values.{
  Value, Items, Fields, null, bool, num, str, arr, obj, nil, cons, end, field, Violation,
  dangerous_pattern, critical,
}

-- `collectStrings`: the texts in a value, appended to those found so far.
unfoldable mutual
  pub collect_strings : {N : Type 0} → Value N → List Text → List Text
  collect_strings null out = out
  collect_strings (bool b) out = out
  collect_strings (num n) out = out
  collect_strings (str s) out = out ++ s ∷ []
  collect_strings (arr xs) out = collect_items xs out
  collect_strings (obj fs) out = collect_fields fs out

  pub collect_items : {N : Type 0} → Items N → List Text → List Text
  collect_items nil out = out
  collect_items (cons x xs) out = collect_items xs (collect_strings x out)

  pub collect_fields : {N : Type 0} → Fields N → List Text → List Text
  collect_fields end out = out
  collect_fields (field k v fs) out = collect_fields fs (collect_strings v out)

-- A compiled pattern: its text, and which texts it matches.
pub record Pattern : Type 0 where
  pub source : Text
  pub matches : Text → Bool

-- The loop over the patterns for one text; a nil pattern is skipped.
unfoldable pub check_patterns : Text → List (Option Pattern) → List Violation
check_patterns value [] = []
check_patterns value (none ∷ ps) = check_patterns value ps
check_patterns value (some p ∷ ps) =
    if p.matches value
    then record {
      kind = dangerous_pattern;
      detail = codes "dangerous pattern matched: " ++ p.source;
      severity = critical;
    }
      ∷ check_patterns value ps
    else check_patterns value ps

unfoldable pub check_values : List Text → List (Option Pattern) → List Violation
check_values [] patterns = []
check_values (value ∷ values) patterns =
    check_patterns value patterns ++ check_values values patterns

-- The early return for no arguments or no patterns gives what the loops give for them.
unfoldable pub check_dangerous : {N : Type 0} → Fields N → List (Option Pattern) → List Violation
unfolding collect_strings check_values check_patterns
check_dangerous args patterns = check_values (collect_fields args []) patterns
