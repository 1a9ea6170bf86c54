-- ===== src/Events/Settings/Secrets.antt =====
-- internal/events/handlers.go: no server is told a setting that looks like a secret.
use cruvero_mcp_gateway.Prelude.Int.{ℤ, is_pos}
use mathlib.Core.Path.{subst}
use cruvero_mcp_gateway.Prelude.{
  Result-cases, ◌≡◌, List, [], ◌∷◌, is_empty, ok, then_ok, arith, Bool-cases, inl, inr,
  Option-cases,
}
use cruvero_mcp_gateway.Prelude.Texts.{Text, text_eq, trim_space}
use cruvero_mcp_gateway.Prelude.Maps.{
  AllValues, insert-AllValues, lookup-AllValues, Map, lookup, insert,
}
use cruvero_mcp_gateway.Policy.Values.{Fields}
use cruvero_mcp_gateway.Registration.Settings.{
  clone_settings, clone_all, Settings, update_effective_settings, effective_settings_for_server,
}
use cruvero_mcp_gateway.Events.Settings.{
  validate_fields, ServerSettingsConfig, build_validated_server_settings, handle_settings, Saving,
}
use cruvero_mcp_gateway.Events.Settings.Plain.{IsPlain, validated_fields, clone_settings-IsPlain}

module _ {N : Type 0} where
  -- All settings of a map are plain.
  abbrev AllPlain : Map Text (Fields N) → Type 0
  AllPlain m = AllValues IsPlain m

  built-AllPlain :
      (servers : List (ServerSettingsConfig N)) (out m : Map Text (Fields N))
      → AllPlain out
      → build_validated_server_settings servers out ≡ ok m
      → AllPlain m
  unfolding build_validated_server_settings
  built-AllPlain [] out m all h = let e : out ≡ m = ground arith in subst (λ x. AllPlain x) e all
  built-AllPlain (s ∷ rest) out m all h =
      let name = trim_space s.server_name in
      let next = insert name (clone_settings s.effective_settings) out in
      let (before, built) = then_ok _ (build_validated_server_settings rest next) m h in
      let (_, valid) = then_ok _ (validate_fields s.effective_settings) tt before in
      built-AllPlain rest next m
        (insert-AllValues IsPlain name (clone_settings s.effective_settings) out
          (clone_settings-IsPlain s.effective_settings
            (validated_fields s.effective_settings valid))
          all)
        built

  clone_all-AllPlain :
      (m next : Map Text (Fields N)) → AllPlain m → AllPlain next → AllPlain (clone_all m next)
  unfolding clone_all
  clone_all-AllPlain [] next all held = held
  clone_all-AllPlain ((raw, fs) ∷ rest) next (plain, all) held =
      elim (Bool-cases (is_empty (trim_space raw))) [
        | inl blank ↦ rw (clone_all, blank) (clone_all-AllPlain rest next all held)
        | inr named ↦
            rw (clone_all, named)
              (clone_all-AllPlain rest (insert (trim_space raw) (clone_settings fs) next) all (
                insert-AllValues IsPlain (trim_space raw) (clone_settings fs) next
                  (clone_settings-IsPlain fs plain) held))
      ]

  told-IsPlain :
      (t : Settings N) (name : Text)
      → AllPlain t.by_server
      → IsPlain (effective_settings_for_server t name).1
  unfolding effective_settings_for_server IsPlain
  told-IsPlain t name all = elim (Option-cases (lookup (trim_space name) t.by_server)) [
    | inl e ↦ rw (effective_settings_for_server, e) tt
    | inr (fs, e) ↦
        rw (effective_settings_for_server, e)
          (clone_settings-IsPlain fs
            (lookup-AllValues IsPlain (trim_space name) fs t.by_server all e))
  ]

  updated_plain :
      (s t : Settings N) (version : ℤ) (m : Map Text (Fields N))
      → AllPlain m
      → update_effective_settings s version m ≡ ok t
      → AllPlain t.by_server
  unfolding update_effective_settings
  updated_plain s t version m all h =
      let e : clone_all m [] ≡ t.by_server = ground arith in
      subst (λ x. AllPlain x) e (clone_all-AllPlain m [] all tt)

  handled_plain :
      (saving : Saving) (s : Settings N) (version : ℤ) (servers : List (ServerSettingsConfig N))
      → AllPlain s.by_server
      → AllPlain (handle_settings saving s version servers).0.by_server
  unfolding handle_settings
  handled_plain saving s version servers all = elim (Bool-cases (is_pos version)) [
    | inr e ↦ rw (handle_settings, e) all
    | inl e ↦ elim (Result-cases (build_validated_server_settings servers [])) [
      | inr (x, refused) ↦ rw (handle_settings, e, refused) all
      | inl (m, built) ↦ elim (Result-cases (update_effective_settings s version m)) [
        | inr (x, stale) ↦ rw (handle_settings, e, built, stale) all
        | inl (t, updated) ↦
            rw (handle_settings, e, built, updated)
              (updated_plain s t version m (built-AllPlain servers [] m tt built) updated)
      ]
    ]
  ]

  -- The messages that arrive, each with what the store of the configuration answers.
  pub after_all : Settings N → List (Saving × ℤ × List (ServerSettingsConfig N)) → Settings N
  after_all s [] = s
  after_all s ((saving, version, servers) ∷ rest) =
      after_all (handle_settings saving s version servers).0 rest

  after_all_plain :
      (s : Settings N) (messages : List (Saving × ℤ × List (ServerSettingsConfig N)))
      → AllPlain s.by_server
      → AllPlain (after_all s messages).by_server
  unfolding after_all
  after_all_plain s [] all = all
  after_all_plain s ((saving, version, servers) ∷ rest) all =
      after_all_plain (handle_settings saving s version servers).0 rest
        (handled_plain saving s version servers all)

  -- From a service without settings, whatever messages with settings arrive, accepted or refused, no
  -- server is ever told a setting with a key that looks like one of a secret, at any depth.
  pub after_all-IsPlain :
      (version : ℤ) (messages : List (Saving × ℤ × List (ServerSettingsConfig N))) (name : Text)
      → IsPlain
          (effective_settings_for_server
            (after_all (record { version = version; by_server = [] }) messages)
            name).1
  after_all-IsPlain version messages name =
      told-IsPlain (after_all (record { version = version; by_server = [] }) messages) name
        (after_all_plain (record { version = version; by_server = [] }) messages tt)
