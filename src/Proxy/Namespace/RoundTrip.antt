-- ===== src/Proxy/Namespace/RoundTrip.antt =====
-- Whether the name of a tool can be read back.
use cruvero_mcp_gateway.Prelude.{
  if◌then◌else◌, ◌≡◌, ◌↔◌, inl, inr, false, [], ◌∷◌, ◌++◌, some, is_empty, arith, ℕ, Option-cases,
}
use cruvero_mcp_gateway.Prelude.Texts.{Text, text_eq, trim_space, cut}
use cruvero_mcp_gateway.Prelude.Cuts.{has_char, cut-append, cut_no_char, cut-append-ne-none}
use cruvero_mcp_gateway.Proxy.Namespace.{
  NamespaceResolver, always, apply_namespace, resolve_namespace, display_name, prefixed,
}

resolve_found :
    (r : NamespaceResolver) (x c d : Text)
    → trim_space x ≡ x
    → cut r.separator x ≡ some (c, d)
    → resolve_namespace r x ≡ (if is_empty c then ([], x) else (c, d))
unfolding resolve_namespace
resolve_found r x c d t e = ground (arith)

resolve_joined :
    (r : NamespaceResolver) (mark : ℕ) (a b : Text)
    → r.separator ≡ mark ∷ []
    → trim_space (a ++ (mark ∷ b)) ≡ a ++ (mark ∷ b)
    → is_empty a ≡ false
    → (resolve_namespace r (a ++ (mark ∷ b)) ≡ (a, b)) ↔ (has_char mark a ≡ false)
resolve_joined r mark a b s t n =
    let x = a ++ (mark ∷ b) in
    (
      λ e. elim (Option-cases (cut (mark ∷ []) x)) [
        | inl none_there ↦ absurd (cut-append-ne-none mark a b none_there)
        | inr ((c, d), found) ↦ ground (arith, resolve_found r x c d t, cut_no_char mark x c d)
      ],
      λ h. ground (arith, resolve_found r x a b t, cut-append mark a b h),
    )

joined :
    (r : NamespaceResolver) (mark : ℕ) (tool server : Text)
    → r.mode ≡ always
    → r.separator ≡ mark ∷ []
    → is_empty (trim_space tool) ≡ false
    → is_empty (trim_space server) ≡ false
    → apply_namespace r tool server ≡ display_name (trim_space server) ++ (mark ∷ trim_space tool)
unfolding apply_namespace prefixed
joined r mark tool server m s t v = ground arith

-- Where a resolver always prefixes and its separator is one character, the name that it gives a
-- tool of a server is read back as the shown name of the server and the tool exactly if the
-- shown name does not have that character. Both names are not blank, nor is the shown one, and the
-- given name neither starts nor ends with a space.
pub resolve-apply_namespace :
    (r : NamespaceResolver) (mark : ℕ) (tool server : Text)
    → r.mode ≡ always
    → r.separator ≡ mark ∷ []
    → is_empty (trim_space tool) ≡ false
    → is_empty (trim_space server) ≡ false
    → is_empty (display_name (trim_space server)) ≡ false
    → trim_space (apply_namespace r tool server) ≡ apply_namespace r tool server
    → (resolve_namespace r (apply_namespace r tool server)
        ≡ (display_name (trim_space server), trim_space tool))
      ↔ (has_char mark (display_name (trim_space server)) ≡ false)
resolve-apply_namespace r mark tool server m s t v n e =
    let j = joined r mark tool server m s t v in
    rw j
      (resolve_joined r mark (display_name (trim_space server)) (trim_space tool) s (rw j at e) n)
