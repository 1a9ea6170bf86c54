-- ===== src/Policy/Classification/Rules.antt =====
-- The order in which the rules apply, and the words that they apply to.
use cruvero_mcp_gateway.Prelude.{
  ◌≡◌, refl, Bool, true, false, List, [], ◌∷◌, Option, none, some, if◌then◌else◌, is_empty, any,
  contains, All, arith, eq_iff, Bool-cases, inl, inr, ◌∙◌,
}
use cruvero_mcp_gateway.Prelude.Texts.{Text, text_eq, trim_space, to_lower}
use cruvero_mcp_gateway.Types.{RiskLevel, read_only, write, destructive}
use cruvero_mcp_gateway.Policy.Classification.{
  destructive_keywords, write_keywords, read_only_keywords, find_keyword, classify_by_name, Reason,
  verdict, name_classification_rules, first_rule, is_delimiter, words, split_tool_name,
  classify_description, auto_classify,
}

abbrev is_found : Option Text → Bool
is_found none = false
is_found (some k) = true

find_keyword-contains :
    (token : Text) (ks : List Text) → is_found (find_keyword token ks) ≡ contains ks token
unfolding find_keyword contains
find_keyword-contains token [] = refl
find_keyword-contains token (k ∷ ks) =
    ground (arith, eq_iff token k, eq_iff k token, find_keyword-contains token ks)

-- Whether one of the tokens is a keyword.
unfoldable pub has_keyword : List Text → List Text → Bool
has_keyword tokens keywords = any (contains keywords) tokens

classify_by_name-any :
    (tokens ks : List Text) → is_found (classify_by_name tokens ks) ≡ has_keyword tokens ks
unfolding classify_by_name has_keyword any
classify_by_name-any [] ks = refl
classify_by_name-any (t ∷ ts) ks =
    ground (arith, find_keyword-contains t ks, classify_by_name-any ts ks)

-- The level of the first of three rules that matches.
first_of_three :
    (matcher : List Text → Option Text) (a b c : List Text) (k l m : RiskLevel)
    (rest : RiskLevel × Reason)
    → (verdict
        (first_rule matcher (
          record { keywords = a; level = k }
          ∷ record { keywords = b; level = l }
          ∷ record { keywords = c; level = m }
          ∷ []))
        rest).0
      ≡ (if is_found (matcher a)
          then k
          else if is_found (matcher b)
          then l
          else if is_found (matcher c)
          then m
          else rest.0)
unfolding first_rule verdict
first_of_three matcher a b c k l m rest = ground arith

order_of_rules :
    (tokens a b c : List Text) (k l m : RiskLevel) (rest : RiskLevel × Reason)
    → (verdict
        (first_rule (classify_by_name tokens) (
          record { keywords = a; level = k }
          ∷ record { keywords = b; level = l }
          ∷ record { keywords = c; level = m }
          ∷ []))
        rest).0
      ≡ (if has_keyword tokens a
          then k
          else if has_keyword tokens b
          then l
          else if has_keyword tokens c
          then m
          else rest.0)
order_of_rules tokens a b c k l m rest =
    rw
      (
        ← classify_by_name-any tokens a,
        ← classify_by_name-any tokens b,
        ← classify_by_name-any tokens c,
      )
      (first_of_three (classify_by_name tokens) a b c k l m rest)

auto_classify_unfolded :
    (name description : Text)
    → (auto_classify name description).0
      ≡ (verdict
          (first_rule (classify_by_name (split_tool_name name)) name_classification_rules)
          (classify_description description)).0
unfolding auto_classify
auto_classify_unfolded name description = refl

-- A tool is destructive if a word of its name is a destructive keyword, whatever its other words
-- and its description are; else it is read-only if a word is a read-only keyword; else it writes if
-- a word is a write keyword; and only a name with none of these words is judged by the description.
auto_classify_order :
    (name description : Text)
    → let tokens = split_tool_name name in
      (auto_classify name description).0 ≡ (
        if has_keyword tokens destructive_keywords
        then destructive
        else if has_keyword tokens read_only_keywords
        then read_only
        else if has_keyword tokens write_keywords
        then write
        else (classify_description description).0)
auto_classify_order name description =
    auto_classify_unfolded name description
    ∙ order_of_rules (split_tool_name name) destructive_keywords read_only_keywords write_keywords
        destructive read_only write (classify_description description)

-- A word: not empty, and free of delimiters.
abbrev pub IsWord : Text → Type 0
IsWord w = (is_empty w ≡ false) × (any is_delimiter w ≡ false)

cons-IsWord :
    (w : Text) (ws : List Text)
    → any is_delimiter w ≡ false
    → All IsWord ws
    → All IsWord (if is_empty w then ws else w ∷ ws)
unfolding any
cons-IsWord [] ws h a = a
cons-IsWord (c ∷ w) ws h a = ((refl, h), a)

words-IsWord : (s : Text) → (any is_delimiter (words s).0 ≡ false) × All IsWord (words s).1
unfolding words any
words-IsWord [] = (refl, tt)
words-IsWord (c ∷ s) =
    let (h, a) = words-IsWord s in
    elim (Bool-cases (is_delimiter c)) [
      | inl e ↦ rw e (refl, cons-IsWord (words s).0 (words s).1 h a)
      | inr e ↦ rw e (rw e h, a)
    ]

-- The words that a name is split into are not empty and have no delimiter in them.
split_tool_name-IsWord : (name : Text) → All IsWord (split_tool_name name)
unfolding split_tool_name
split_tool_name-IsWord name =
    let (h, a) = words-IsWord (to_lower (trim_space name)) in cons-IsWord _ _ h a
