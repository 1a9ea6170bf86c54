-- ===== src/Events/Settings/Plain.antt =====
-- internal/events/handlers.go: settings without keys of secrets, and that copying keeps them so.
use cruvero_mcp_gateway.Prelude.{
  ◌≡◌, refl, false, is_empty, ok, then_ok, arith, Bool-cases, inl, inr, ◌==◌,
}
use cruvero_mcp_gateway.Prelude.Texts.{Text, text_eq, trim_space, trim_space_idem}
use cruvero_mcp_gateway.Policy.Values.{
  Value, Items, Fields, null, bool, num, str, arr, obj, nil, cons, end, field,
}
use cruvero_mcp_gateway.Registration.Settings.{
  put_field, clone_value, clone_items, clone_fields, clone_settings,
}
use cruvero_mcp_gateway.Events.Settings.{
  is_secret_key, check_key, validate_setting, validate_items, validate_fields,
}

checked_key : (k : Text) → check_key k ≡ ok tt → is_secret_key k ≡ false
unfolding check_key
checked_key k h = ground arith

is_secret_key_trimmed : (k : Text) → is_secret_key (trim_space k) ≡ is_secret_key k
unfolding is_secret_key
is_secret_key_trimmed k = rw (trim_space_idem k) refl

module _ {N : Type 0} where
  -- No key looks like one of a secret, at any depth.
  unfoldable mutual
    pub IsPlainValue : Value N → Type 0
    IsPlainValue (arr xs) = IsPlainItems xs
    IsPlainValue (obj fs) = IsPlain fs
    IsPlainValue _ = Unit

    pub IsPlainItems : Items N → Type 0
    IsPlainItems nil = Unit
    IsPlainItems (cons x xs) = IsPlainValue x × IsPlainItems xs

    pub IsPlain : Fields N → Type 0
    IsPlain end = Unit
    IsPlain (field k v fs) = (is_secret_key k ≡ false) × IsPlainValue v × IsPlain fs

  mutual
    unfolding validate_setting validate_items validate_fields IsPlainValue IsPlainItems IsPlain

    validated_value :
        (k : Text) (v : Value N)
        → validate_setting k v ≡ ok tt
        → (is_secret_key k ≡ false) × IsPlainValue v
    validated_value k (arr xs) h =
        let (checked, items) = then_ok (check_key k) (validate_items (trim_space k) xs) tt h in
        (checked_key k checked, validated_items (trim_space k) xs items)
    validated_value k (obj fs) h =
        let (checked, fields) = then_ok (check_key k) (validate_fields fs) tt h in
        (checked_key k checked, validated_fields fs fields)
    validated_value k null h = (checked_key k h, tt)
    validated_value k (bool b) h = (checked_key k h, tt)
    validated_value k (num n) h = (checked_key k h, tt)
    validated_value k (str s) h = (checked_key k h, tt)

    validated_items : (k : Text) (xs : Items N) → validate_items k xs ≡ ok tt → IsPlainItems xs
    validated_items k nil h = tt
    validated_items k (cons x xs) h =
        let (first, rest) = then_ok (validate_setting k x) (validate_items k xs) tt h in
        ((validated_value k x first).1, validated_items k xs rest)

    pub validated_fields : (fs : Fields N) → validate_fields fs ≡ ok tt → IsPlain fs
    validated_fields end h = tt
    validated_fields (field k v fs) h =
        let (first, rest) = then_ok (validate_setting k v) (validate_fields fs) tt h in
        let (open_key, plain) = validated_value k v first in
        (open_key, plain, validated_fields fs rest)

  put_field-IsPlain :
      (k : Text) (v : Value N) (fs : Fields N)
      → is_secret_key k ≡ false
      → IsPlainValue v
      → IsPlain fs
      → IsPlain (put_field k v fs)
  unfolding put_field IsPlain
  put_field-IsPlain k v end a b c = (a, b, tt)
  put_field-IsPlain k v (field j w fs) a b (d, e, f) = elim (Bool-cases (j == k)) [
    | inl same ↦ rw (put_field, same) (a, b, f)
    | inr other ↦ rw (put_field, other) (d, e, put_field-IsPlain k v fs a b f)
  ]

  mutual
    unfolding clone_value clone_items clone_fields IsPlainValue IsPlainItems IsPlain

    clone_value-IsPlain : (v : Value N) → IsPlainValue v → IsPlainValue (clone_value v)
    clone_value-IsPlain (arr xs) h = clone_items-IsPlain xs h
    clone_value-IsPlain (obj fs) h = clone_fields-IsPlain fs end h tt
    clone_value-IsPlain null h = tt
    clone_value-IsPlain (bool b) h = tt
    clone_value-IsPlain (num n) h = tt
    clone_value-IsPlain (str s) h = tt

    clone_items-IsPlain : (xs : Items N) → IsPlainItems xs → IsPlainItems (clone_items xs)
    clone_items-IsPlain nil h = tt
    clone_items-IsPlain (cons (obj fs) xs) (a, b) =
        (clone_fields-IsPlain fs end a tt, clone_items-IsPlain xs b)
    clone_items-IsPlain (cons (arr ys) xs) (a, b) = (a, clone_items-IsPlain xs b)
    clone_items-IsPlain (cons null xs) (a, b) = (tt, clone_items-IsPlain xs b)
    clone_items-IsPlain (cons (bool c) xs) (a, b) = (tt, clone_items-IsPlain xs b)
    clone_items-IsPlain (cons (num n) xs) (a, b) = (tt, clone_items-IsPlain xs b)
    clone_items-IsPlain (cons (str s) xs) (a, b) = (tt, clone_items-IsPlain xs b)

    clone_fields-IsPlain :
        (fs out : Fields N) → IsPlain fs → IsPlain out → IsPlain (clone_fields fs out)
    clone_fields-IsPlain end out h o = o
    clone_fields-IsPlain (field k v fs) out (a, b, c) o =
        elim (Bool-cases (is_empty (trim_space k))) [
          | inl blank ↦ rw (clone_fields, blank) (clone_fields-IsPlain fs out c o)
          | inr named ↦
              rw (clone_fields, named)
                (clone_fields-IsPlain fs (put_field (trim_space k) (clone_value v) out) c (
                  put_field-IsPlain (trim_space k) (clone_value v) out
                    (rw (is_secret_key_trimmed k) a) (clone_value-IsPlain v b) o))
        ]

  pub clone_settings-IsPlain : (fs : Fields N) → IsPlain fs → IsPlain (clone_settings fs)
  unfolding clone_settings IsPlain
  clone_settings-IsPlain fs h = clone_fields-IsPlain fs end h tt
