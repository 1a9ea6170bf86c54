-- ===== src/Registration/Settings/Versions.antt =====
-- internal/registration/service.go: the versions of the effective settings, and what a server is
-- told after an update.
use cruvero_mcp_gateway.Prelude.{
  Option-cases, ◌≡◌, refl, inl, inr, arith, ◌==◌, false, not, Option, none, some, List, [], ◌∷◌,
  Result, ok, err, if◌then◌else◌, is_empty, Bool-cases, ◌∙◌, ◌&&◌,
}
use cruvero_mcp_gateway.Prelude.Int.{ℤ, pos, negsuc}
use cruvero_mcp_gateway.Prelude.Texts.{Text, text_eq, trim_space}
use cruvero_mcp_gateway.Prelude.Maps.{Map, lookup, insert, lookup-insert}
use cruvero_mcp_gateway.Policy.Values.{Fields, end}
use cruvero_mcp_gateway.Registration.Settings.{
  Settings, SettingsError, clone_settings, clone_all, int_ltb, update_effective_settings,
  effective_settings_for_server,
}

ltb_trans : (x y z : ℤ) → int_ltb y x ≡ false → int_ltb z y ≡ false → int_ltb z x ≡ false
unfolding int_ltb
ltb_trans (pos a) (pos b) (pos c) h k = ground arith
ltb_trans (pos a) (pos b) (negsuc c) h k = ground arith
ltb_trans (pos a) (negsuc b) z h k = ground arith
ltb_trans (negsuc a) (pos b) (pos c) h k = refl
ltb_trans (negsuc a) (pos b) (negsuc c) h k = ground arith
ltb_trans (negsuc a) (negsuc b) (pos c) h k = refl
ltb_trans (negsuc a) (negsuc b) (negsuc c) h k = ground arith

ltb_irrefl : (x : ℤ) → int_ltb x x ≡ false
unfolding int_ltb
ltb_irrefl (pos n) = ground arith
ltb_irrefl (negsuc n) = ground arith

module _ {N : Type 0} where
  -- The updates that arrive, one after the other; one that is refused changes nothing.
  abbrev kept : Settings N → Result SettingsError (Settings N) → Settings N
  kept s (ok t) = t
  kept s (err e) = s

  pub updates : Settings N → List (ℤ × Map Text (Fields N)) → Settings N
  updates s [] = s
  updates s ((version, by_server) ∷ us) =
      updates (kept s (update_effective_settings s version by_server)) us

  kept_version :
      (s : Settings N) (version : ℤ) (m : Map Text (Fields N))
      → int_ltb (kept s (update_effective_settings s version m)).version s.version ≡ false
  unfolding update_effective_settings
  kept_version s version m = ground (arith, ltb_irrefl s.version)

  -- Whatever updates arrive, in whatever order, the version that servers are told never goes back.
  pub updates-version :
      (s : Settings N) (us : List (ℤ × Map Text (Fields N)))
      → int_ltb (updates s us).version s.version ≡ false
  unfolding updates
  updates-version s [] = ltb_irrefl s.version
  updates-version s ((version, m) ∷ us) =
      let t = kept s (update_effective_settings s version m) in
      ltb_trans s.version t.version (updates t us).version (kept_version s version m)
        (updates-version t us)

  -- The last entry of the map with a name, once trimmed, that is not blank.
  abbrev pub last_setting : Text → Map Text (Fields N) → Option (Fields N)
  last_setting name [] = none
  last_setting name ((raw, settings) ∷ rest) = elim (last_setting name rest) [
    | some later ↦ some later
    | none ↦
        if not (is_empty (trim_space raw)) && trim_space raw == name then some settings else none
  ]

  -- What a lookup finds after a copy, over what it found before.
  abbrev copied : Option (Fields N) → Option (Fields N) → Option (Fields N)
  copied before none = before
  copied before (some f) = some (clone_settings f)

  abbrev pub told : Option (Fields N) → Fields N
  told none = end
  told (some f) = clone_settings (clone_settings f)

  put_first :
      (name raw : Text) (settings : Fields N) (next : Map Text (Fields N))
      → lookup name (insert (trim_space raw) (clone_settings settings) next)
        ≡ copied (lookup name next) (if trim_space raw == name then some settings else none)
  put_first name raw settings next =
      ground (arith, lookup-insert (trim_space raw) name (clone_settings settings) next)

  lookup-clone_all :
      (name : Text) (m next : Map Text (Fields N))
      → lookup name (clone_all m next) ≡ copied (lookup name next) (last_setting name m)
  unfolding clone_all
  lookup-clone_all name [] next = refl
  lookup-clone_all name ((raw, settings) ∷ rest) next =
      elim (Option-cases (last_setting name rest)) [
        | inr (later, e) ↦ rw e (lookup-clone_all name rest _ ∙ rw e refl)
        | inl e ↦ elim (Bool-cases (is_empty (trim_space raw))) [
          | inl blank ↦ rw (blank, e) (lookup-clone_all name rest next ∙ rw (e, blank) refl)
          | inr named ↦
              rw (named, e)
                (lookup-clone_all name rest (insert (trim_space raw) (clone_settings settings) next)
                  ∙ rw (e, named) (put_first name raw settings next))
        ]
      ]

  -- After an update that is accepted, a server is told the version of the update with a copy of the
  -- last settings that it has for the server's name, or no settings where it has none.
  effective_settings_for_server-update :
      (s t : Settings N) (version : ℤ) (m : Map Text (Fields N)) (name : Text)
      → update_effective_settings s version m ≡ ok t
      → effective_settings_for_server t name ≡ (version, told (last_setting (trim_space name) m))
  unfolding update_effective_settings effective_settings_for_server lookup
  effective_settings_for_server-update s t version m name h =
      let same : t ≡ record { version = version; by_server = clone_all m [] } = ground arith in
      rw same (elim (Option-cases (last_setting (trim_space name) m)) [
        | inl e ↦
            rw (effective_settings_for_server, lookup-clone_all (trim_space name) m [], e) refl
        | inr (f, e) ↦
            rw (effective_settings_for_server, lookup-clone_all (trim_space name) m [], e) refl
      ])
