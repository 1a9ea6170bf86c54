-- ===== src/Policy/Audit/Secrecy.antt =====
-- What the sanitized arguments tell of the arguments (internal/policy/audit.go). The
-- decision that is logged beside them is left out: it may depend on a value that is hidden.
use cruvero_mcp_gateway.Prelude.{◌≡◌, refl, ap, ap₂, ◌∙◌, true, if◌then◌else◌, sym}
use cruvero_mcp_gateway.Prelude.Texts.{Text}
use cruvero_mcp_gateway.Policy.Values.{
  Value, Items, Fields, null, bool, num, str, arr, obj, nil, cons, end, field,
}
use cruvero_mcp_gateway.Policy.Audit.{
  is_sensitive_key, normal_key, redacted, sanitize_value, sanitize_items, sanitize_fields,
  sanitize_for_audit,
}

-- Two values that agree but for what stands under sensitive keys, at any depth.
mutual
  pub data SameValue {N : Type 0} : Text → Value N → Value N → Type 0 where
    hidden : {key : Text} {v w : Value N} → is_sensitive_key key ≡ true → SameValue key v w
    same : {key : Text} {v : Value N} → SameValue key v v
    both_arr :
        {key : Text} {xs ys : Items N} → SameItems key xs ys → SameValue key (arr xs) (arr ys)
    both_obj : {key : Text} {fs gs : Fields N} → SameFields fs gs → SameValue key (obj fs) (obj gs)

  pub data SameItems {N : Type 0} : Text → Items N → Items N → Type 0 where
    both_nil : {key : Text} → SameItems key nil nil
    both_cons :
        {key : Text} {v w : Value N} {xs ys : Items N}
        → SameValue key v w
        → SameItems key xs ys
        → SameItems key (cons v xs) (cons w ys)

  pub data SameFields {N : Type 0} : Fields N → Fields N → Type 0 where
    both_end : SameFields end end
    both_field :
        {k : Text} {v w : Value N} {fs gs : Fields N}
        → SameValue (normal_key k) v w
        → SameFields fs gs
        → SameFields (field k v fs) (field k w gs)

module _ {N : Type 0} where
  sanitize_hidden :
      (key : Text) (v : Value N) → is_sensitive_key key ≡ true → sanitize_value key v ≡ redacted
  unfolding sanitize_value
  sanitize_hidden key null h = rw h
  sanitize_hidden key (bool b) h = rw h
  sanitize_hidden key (num n) h = rw h
  sanitize_hidden key (str s) h = rw h
  sanitize_hidden key (arr xs) h = rw h
  sanitize_hidden key (obj fs) h = rw h

  mutual
    unfolding sanitize_value sanitize_items sanitize_fields

    same_value :
        {key : Text} {v w : Value N}
        → SameValue key v w
        → sanitize_value key v ≡ sanitize_value key w
    same_value (hidden {key} {v} {w} h) = sanitize_hidden key v h ∙ sym (sanitize_hidden key w h)
    same_value same = refl
    same_value (both_arr {key} s) =
        ap (λ t. if is_sensitive_key key then redacted else arr t) (same_items s)
    same_value (both_obj {key} s) =
        ap (λ t. if is_sensitive_key key then redacted else obj t) (same_fields s)

    same_items :
        {key : Text} {xs ys : Items N}
        → SameItems key xs ys
        → sanitize_items key xs ≡ sanitize_items key ys
    same_items both_nil = refl
    same_items (both_cons s r) = ap₂ cons (same_value s) (same_items r)

    same_fields : {fs gs : Fields N} → SameFields fs gs → sanitize_fields fs ≡ sanitize_fields gs
    same_fields both_end = refl
    same_fields (both_field {k} s r) = ap₂ (field k) (same_value s) (same_fields r)

  -- The sanitized arguments do not depend on what stands under a sensitive key, at any depth:
  -- arguments that agree elsewhere are sanitized alike.
  pub sanitize_for_audit_hides :
      (args args' : Fields N)
      → SameFields args args'
      → sanitize_for_audit args ≡ sanitize_for_audit args'
  unfolding sanitize_for_audit
  sanitize_for_audit_hides args args' s = same_fields s
