-- ===== src/Policy/Classification.antt =====
-- internal/policy/classification.go: the risk of a tool from the words of its name and description.
pub mod Rules
use cruvero_mcp_gateway.Prelude.{
  ℕ, Bool, true, false, ◌||◌, List, [], ◌∷◌, ◌++◌, map, Option, none, some, ◌==◌, if◌then◌else◌,
  nat_beq, is_empty, any, contains,
}
use cruvero_mcp_gateway.Prelude.Texts.{
  Text, text_eq, codes, trim_space, to_lower, contains_text, is_space,
}
use cruvero_mcp_gateway.Types.{RiskLevel, read_only, write, destructive, unknown}

abbrev pub destructive_keywords : List Text
destructive_keywords = map codes (
    "delete" ∷ "remove" ∷ "destroy" ∷ "drop" ∷ "purge" ∷ "erase" ∷ "wipe" ∷ "truncate" ∷ "kill"
    ∷ "terminate" ∷ "revoke" ∷ "force" ∷ [])

abbrev pub write_keywords : List Text
write_keywords = map codes (
    "create" ∷ "update" ∷ "set" ∷ "put" ∷ "post" ∷ "write" ∷ "add" ∷ "insert" ∷ "modify" ∷ "patch"
    ∷ "upload" ∷ "push" ∷ "send" ∷ "publish" ∷ "assign" ∷ "enable" ∷ "disable" ∷ "configure"
    ∷ "deploy" ∷ "start" ∷ "stop" ∷ "restart" ∷ [])

abbrev pub read_only_keywords : List Text
read_only_keywords = map codes (
    "get" ∷ "list" ∷ "read" ∷ "describe" ∷ "show" ∷ "fetch" ∷ "query" ∷ "search" ∷ "find" ∷ "view"
    ∷ "inspect" ∷ "check" ∷ "status" ∷ "info" ∷ "count" ∷ "exists" ∷ "download" ∷ "export" ∷ "head"
    ∷ "ping" ∷ "health" ∷ "version" ∷ [])

-- The first keyword that a token is; a Go "" is none.
unfoldable pub find_keyword : Text → List Text → Option Text
find_keyword token [] = none
find_keyword token (k ∷ ks) = if token == k then some k else find_keyword token ks

unfoldable pub classify_by_name : List Text → List Text → Option Text
classify_by_name [] keywords = none
classify_by_name (token ∷ tokens) keywords =
    let rest = classify_by_name tokens keywords in
    elim (find_keyword token keywords) [ some k ↦ some k | none ↦ rest ]

unfoldable pub classify_by_description : Text → List Text → Option Text
classify_by_description desc [] = none
classify_by_description desc (k ∷ ks) =
    if contains_text desc k then some k else classify_by_description desc ks

-- Where the verdict comes from, with the keyword: the reason that the source spells out.
pub data Reason : Type 0 where
  by_name by_description : Text → Reason
  no_keyword : Reason

pub record Rule : Type 0 where
  pub keywords : List Text
  pub level : RiskLevel

abbrev pub name_classification_rules : List Rule
name_classification_rules =
    record { keywords = destructive_keywords; level = destructive }
    ∷ record { keywords = read_only_keywords; level = read_only }
    ∷ record { keywords = write_keywords; level = write }
    ∷ []

-- The first rule that a matcher finds a keyword for.
unfoldable pub first_rule : (List Text → Option Text) → List Rule → Option (RiskLevel × Text)
first_rule matcher [] = none
first_rule matcher (r ∷ rs) =
    let rest = first_rule matcher rs in
    elim (matcher r.keywords) [ some k ↦ some (r.level, k) | none ↦ rest ]

unfoldable pub is_delimiter : ℕ → Bool
unfolding is_space
is_delimiter c = nat_beq c b'.' || nat_beq c b'_' || nat_beq c b'-' || nat_beq c b'/' || is_space c

-- strings.Fields over the delimiters: the maximal runs of other code points. The first part of the
-- result is the word that the text begins with.
unfoldable pub words : Text → Text × List Text
unfolding is_delimiter
words [] = ([], [])
words (c ∷ s) =
    let (word, rest) = words s in
    if is_delimiter c then ([], if is_empty word then rest else word ∷ rest) else (c ∷ word, rest)

unfoldable pub split_tool_name : Text → List Text
unfolding words trim_space to_lower
split_tool_name name =
    let (word, rest) = words (to_lower (trim_space name)) in
    if is_empty word then rest else word ∷ rest

unfoldable pub classify_description : Text → RiskLevel × Reason
unfolding first_rule classify_by_description trim_space to_lower
classify_description description =
    let desc = to_lower (trim_space description) in
    if is_empty desc
    then (unknown, no_keyword)
    else elim (first_rule (classify_by_description desc) name_classification_rules) [
      | some (level, k) ↦ (level, by_description k)
      | none ↦ (unknown, no_keyword)
    ]

-- The verdict by the name if there is one, else the one by the description.
unfoldable pub verdict : Option (RiskLevel × Text) → RiskLevel × Reason → RiskLevel × Reason
verdict (some (level, k)) rest = (level, by_name k)
verdict none rest = rest

unfoldable pub auto_classify : Text → Text → RiskLevel × Reason
unfolding first_rule classify_by_name split_tool_name find_keyword classify_description verdict
auto_classify name description =
    verdict (first_rule (classify_by_name (split_tool_name name)) name_classification_rules)
      (classify_description description)
