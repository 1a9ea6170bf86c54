-- ===== src/Registration/Settings.antt =====
-- internal/registration/service.go: the versioned settings that each server is told.
pub mod Versions
use cruvero_mcp_gateway.Prelude.{
  ℕ, Bool, true, false, not, List, [], ◌∷◌, Option, none, some, ltb, leb, ◌==◌, if◌then◌else◌,
  is_empty, Result, ok, err, require, ◌>>◌,
}
use cruvero_mcp_gateway.Prelude.Int.{ℤ, pos, negsuc, is_pos}
use cruvero_mcp_gateway.Prelude.Texts.{Text, text_eq, trim_space}
use cruvero_mcp_gateway.Prelude.Maps.{Map, lookup, insert}
use cruvero_mcp_gateway.Policy.Values.{
  Value, Items, Fields, null, bool, num, str, arr, obj, nil, cons, end, field,
}

pub record Settings (N : Type 0) : Type 0 where
  pub version : ℤ
  pub by_server : Map Text (Fields N)

pub data SettingsError : Type 0 where
  bad_version stale_version : SettingsError

-- out[key] = value
unfoldable pub put_field : {N : Type 0} → Text → Value N → Fields N → Fields N
put_field key v end = field key v end
put_field key v (field k w fs) = if k == key then field key v fs else field k w (put_field key v fs)

-- `cloneSettings`: keys are trimmed and blank ones dropped, in objects and in objects directly in an
-- array; `out` is the map filled so far.
unfoldable mutual
  pub clone_value : {N : Type 0} → Value N → Value N
  clone_value null = null
  clone_value (bool b) = bool b
  clone_value (num n) = num n
  clone_value (str s) = str s
  clone_value (arr xs) = arr (clone_items xs)
  clone_value (obj fs) = obj (clone_fields fs end)

  pub clone_items : {N : Type 0} → Items N → Items N
  clone_items nil = nil
  clone_items (cons (obj fs) xs) = cons (obj (clone_fields fs end)) (clone_items xs)
  clone_items (cons x xs) = cons x (clone_items xs)

  pub clone_fields : {N : Type 0} → Fields N → Fields N → Fields N
  clone_fields end out = out
  clone_fields (field k v fs) out =
      clone_fields fs
        (if is_empty (trim_space k) then out else put_field (trim_space k) (clone_value v) out)

unfoldable pub clone_settings : {N : Type 0} → Fields N → Fields N
unfolding clone_fields put_field
clone_settings fs = clone_fields fs end

-- The loop of `UpdateEffectiveSettings`.
unfoldable pub clone_all :
    {N : Type 0} → Map Text (Fields N) → Map Text (Fields N) → Map Text (Fields N)
unfolding clone_settings
clone_all [] next = next
clone_all ((raw, settings) ∷ rest) next = clone_all rest (
    if is_empty (trim_space raw)
    then next
    else insert (trim_space raw) (clone_settings settings) next)

-- m < n
unfoldable pub int_ltb : ℤ → ℤ → Bool
int_ltb (pos m) (pos n) = ltb m n
int_ltb (pos m) (negsuc n) = false
int_ltb (negsuc m) (pos n) = true
int_ltb (negsuc m) (negsuc n) = ltb n m

unfoldable pub update_effective_settings :
    {N : Type 0} → Settings N → ℤ → Map Text (Fields N) → Result SettingsError (Settings N)
unfolding clone_all int_ltb
update_effective_settings s version by_server =
    require (is_pos version) bad_version
    >> require (not (int_ltb version s.version)) stale_version
    >> ok (record { version = version; by_server = clone_all by_server [] })

unfoldable pub effective_settings_for_server : {N : Type 0} → Settings N → Text → ℤ × Fields N
unfolding clone_settings
effective_settings_for_server s name = elim (lookup (trim_space name) s.by_server) [
  | none ↦ (s.version, end)
  | some settings ↦ (s.version, clone_settings settings)
]
