-- ===== src/Proxy/Router/Names.antt =====
-- The names that the gateway gives out, read back by the router.
use cruvero_mcp_gateway.Prelude.{ℕ, ◌≡◌, true, false, [], ◌∷◌, some, is_empty, arith, eq_self}
use cruvero_mcp_gateway.Prelude.Texts.{Text, text_eq, to_lower, trim_space, equal_fold}
use cruvero_mcp_gateway.Prelude.Cuts.{has_char}
use cruvero_mcp_gateway.Registration.Index.{CapabilityIndex}
use cruvero_mcp_gateway.Proxy.Namespace.{
  NamespaceResolver, always, apply_namespace, resolve_namespace, display_name,
}
use cruvero_mcp_gateway.Proxy.Namespace.RoundTrip.{resolve-apply_namespace}
use cruvero_mcp_gateway.Proxy.Router.{
  is_offered, matches_server_hint, resolve_with, resolve_federated_name,
}

equal_fold_refl : (s : Text) → equal_fold s s ≡ true
unfolding equal_fold
equal_fold_refl s = eq_self (to_lower s)

own_hint : (server : Text) → matches_server_hint server (display_name (trim_space server)) ≡ true
unfolding matches_server_hint display_name
own_hint server = ground (arith, equal_fold_refl (display_name (trim_space server)))

resolve_with_hint :
    (ns : NamespaceResolver) (index : CapabilityIndex) (name hint bare : Text)
    → ns.mode ≡ always
    → resolve_namespace ns name ≡ (hint, bare)
    → is_empty hint ≡ false
    → is_empty bare ≡ false
    → is_offered index bare ≡ true
    → resolve_with ns index name ≡ (bare, hint)
unfolding resolve_with
resolve_with_hint ns index name hint bare m e h b o = ground (arith)

-- Where a resolver always prefixes, its separator is one character that the shown name of a server
-- does not have, and the name that it gives a tool of the server is not itself the name of a tool
-- in the index, the router takes that name back to the tool, if the index has it, with a hint that
-- the server's own name fits. Neither name is blank, nor is the shown one, and the given name
-- neither starts nor ends with a space.
pub resolve_federated_name-apply_namespace :
    (index : CapabilityIndex) (ns : NamespaceResolver) (mark : ℕ) (tool server : Text)
    → ns.mode ≡ always
    → ns.separator ≡ mark ∷ []
    → is_empty (trim_space tool) ≡ false
    → is_empty (trim_space server) ≡ false
    → is_empty (display_name (trim_space server)) ≡ false
    → trim_space (apply_namespace ns tool server) ≡ apply_namespace ns tool server
    → has_char mark (display_name (trim_space server)) ≡ false
    → is_offered index (trim_space tool) ≡ true
    → is_offered index (apply_namespace ns tool server) ≡ false
    → (resolve_federated_name index (some ns) (apply_namespace ns tool server)
        ≡ (trim_space tool, display_name (trim_space server)))
      × (matches_server_hint server (display_name (trim_space server)) ≡ true)
unfolding resolve_federated_name
resolve_federated_name-apply_namespace index ns mark tool server m s t v d e h o n =
    let back = (resolve-apply_namespace ns mark tool server m s t v d e).1 h in
    (
      rw n (
          resolve_with_hint ns index (apply_namespace ns tool server)
            (display_name (trim_space server)) (trim_space tool) m back d t o),
      own_hint server,
    )
