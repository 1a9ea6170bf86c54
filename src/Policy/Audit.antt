-- ===== src/Policy/Audit.antt =====
-- internal/policy/audit.go: what of the arguments is written to the audit log.
pub mod Secrecy
use cruvero_mcp_gateway.Prelude.{Bool, ◌||◌, ◌&&◌, not, if◌then◌else◌, is_empty, reverse}
use cruvero_mcp_gateway.Prelude.Texts.{Text, codes, trim_space, to_lower, contains_text, has_suffix}
use cruvero_mcp_gateway.Policy.Values.{
  Value, Items, Fields, null, bool, num, str, arr, obj, nil, cons, end, field,
}

unfoldable pub is_sensitive_key : Text → Bool
unfolding has_suffix contains_text
is_sensitive_key key =
    not (is_empty key)
    && (contains_text key (codes "password")
        || contains_text key (codes "secret")
        || contains_text key (codes "token")
        || has_suffix key (codes "key"))

-- The key as `isSensitiveKey` reads it.
unfoldable pub normal_key : Text → Text
normal_key key = trim_space (to_lower key)

abbrev pub redacted : {N : Type 0} → Value N
redacted = str (codes "[redacted]")

-- `sanitizeValue`: the argument `key` is the normal key of the field that the value stands under.
unfoldable mutual
  pub sanitize_value : {N : Type 0} → Text → Value N → Value N
  sanitize_value key null = if is_sensitive_key key then redacted else null
  sanitize_value key (bool b) = if is_sensitive_key key then redacted else bool b
  sanitize_value key (num n) = if is_sensitive_key key then redacted else num n
  sanitize_value key (str s) = if is_sensitive_key key then redacted else str s
  sanitize_value key (arr xs) =
      if is_sensitive_key key then redacted else arr (sanitize_items key xs)
  sanitize_value key (obj fs) = if is_sensitive_key key then redacted else obj (sanitize_fields fs)

  pub sanitize_items : {N : Type 0} → Text → Items N → Items N
  sanitize_items key nil = nil
  sanitize_items key (cons x xs) = cons (sanitize_value key x) (sanitize_items key xs)

  pub sanitize_fields : {N : Type 0} → Fields N → Fields N
  sanitize_fields end = end
  sanitize_fields (field k v fs) = field k (sanitize_value (normal_key k) v) (sanitize_fields fs)

unfoldable pub sanitize_for_audit : {N : Type 0} → Fields N → Fields N
unfolding sanitize_fields
sanitize_for_audit args = sanitize_fields args
