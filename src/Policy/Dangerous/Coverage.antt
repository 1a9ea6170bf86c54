-- ===== src/Policy/Dangerous/Coverage.antt =====
-- Which arguments the search for dangerous patterns reports.
use cruvero_mcp_gateway.Prelude.{
  ◌≡◌, refl, Bool, false, ◌||◌, not, List, [], ◌∷◌, ◌++◌, Option, none, some, is_empty, any, arith,
  ◌∙◌, ap,
}
use cruvero_mcp_gateway.Prelude.Texts.{Text}
use cruvero_mcp_gateway.Policy.Values.{
  Value, Items, Fields, null, bool, num, str, arr, obj, nil, cons, end, field, Violation,
}
use cruvero_mcp_gateway.Policy.Dangerous.{
  collect_strings, collect_items, collect_fields, Pattern, check_patterns, check_values,
  check_dangerous,
}

-- Whether a test holds of some text in a value, at any depth.
unfoldable mutual
  pub some_text : {N : Type 0} → (Text → Bool) → Value N → Bool
  some_text p null = false
  some_text p (bool b) = false
  some_text p (num n) = false
  some_text p (str s) = p s
  some_text p (arr xs) = some_item p xs
  some_text p (obj fs) = some_field p fs

  pub some_item : {N : Type 0} → (Text → Bool) → Items N → Bool
  some_item p nil = false
  some_item p (cons x xs) = some_text p x || some_item p xs

  pub some_field : {N : Type 0} → (Text → Bool) → Fields N → Bool
  some_field p end = false
  some_field p (field k v fs) = some_text p v || some_field p fs

any-snoc : (p : Text → Bool) (out : List Text) (s : Text) → any p (out ++ s ∷ []) ≡ any p out || p s
unfolding any
any-snoc p [] s = ground arith
any-snoc p (x ∷ out) s = ground (arith, any-snoc p out s)

or_false : (b : Bool) → b ≡ b || false
or_false b = ground arith

or_assoc : (a b c : Bool) → (a || b) || c ≡ a || (b || c)
or_assoc a b c = ground arith

module _ {N : Type 0} (p : Text → Bool) where
  mutual
    unfolding collect_strings collect_items collect_fields some_text some_item some_field

    any-collect_strings :
        (v : Value N) (out : List Text) → any p (collect_strings v out) ≡ any p out || some_text p v
    any-collect_strings null out = or_false (any p out)
    any-collect_strings (bool b) out = or_false (any p out)
    any-collect_strings (num n) out = or_false (any p out)
    any-collect_strings (str s) out = any-snoc p out s
    any-collect_strings (arr xs) out = any-collect_items xs out
    any-collect_strings (obj fs) out = any-collect_fields fs out

    any-collect_items :
        (xs : Items N) (out : List Text)
        → any p (collect_items xs out) ≡ any p out || some_item p xs
    any-collect_items nil out = or_false (any p out)
    any-collect_items (cons x xs) out =
        any-collect_items xs (collect_strings x out)
        ∙ ap (λ b. b || some_item p xs) (any-collect_strings x out)
        ∙ or_assoc (any p out) (some_text p x) (some_item p xs)

    any-collect_fields :
        (fs : Fields N) (out : List Text)
        → any p (collect_fields fs out) ≡ any p out || some_field p fs
    any-collect_fields end out = or_false (any p out)
    any-collect_fields (field k v fs) out =
        any-collect_fields fs (collect_strings v out)
        ∙ ap (λ b. b || some_field p fs) (any-collect_strings v out)
        ∙ or_assoc (any p out) (some_text p v) (some_field p fs)

-- Whether one of the patterns matches a text.
abbrev pub matched : List (Option Pattern) → Text → Bool
matched [] s = false
matched (none ∷ ps) s = matched ps s
matched (some q ∷ ps) s = q.matches s || matched ps s

check_patterns-matched :
    (s : Text) (ps : List (Option Pattern)) → not (is_empty (check_patterns s ps)) ≡ matched ps s
unfolding check_patterns
check_patterns-matched s [] = refl
check_patterns-matched s (none ∷ ps) = check_patterns-matched s ps
check_patterns-matched s (some q ∷ ps) = ground (arith, check_patterns-matched s ps)

not_empty-append :
    (vs ws : List Violation) → not (is_empty (vs ++ ws)) ≡ not (is_empty vs) || not (is_empty ws)
not_empty-append [] ws = refl
not_empty-append (v ∷ vs) ws = refl

check_values-any :
    (values : List Text) (ps : List (Option Pattern))
    → not (is_empty (check_values values ps)) ≡ any (matched ps) values
unfolding check_values any
check_values-any [] ps = refl
check_values-any (s ∷ ss) ps = ground (
  arith,
  not_empty-append (check_patterns s ps) (check_values ss ps),
  check_patterns-matched s ps,
  check_values-any ss ps,
)

-- A violation is reported exactly if some text among the arguments, however deep in objects and
-- arrays, matches some pattern.
pub check_dangerous_covers :
    {N : Type 0} (args : Fields N) (ps : List (Option Pattern))
    → not (is_empty (check_dangerous args ps)) ≡ some_field (matched ps) args
unfolding check_dangerous some_field any
check_dangerous_covers args ps =
    check_values-any (collect_fields args []) ps ∙ any-collect_fields (matched ps) args []
