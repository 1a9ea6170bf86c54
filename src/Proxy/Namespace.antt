-- ===== src/Proxy/Namespace.antt =====
-- internal/proxy/namespace.go: the names that tell the tools of different servers apart.
pub mod RoundTrip
use cruvero_mcp_gateway.Prelude.{
  Bool, ◌||◌, [], ◌∷◌, ◌++◌, Option, none, some, ltb, ◌==◌, if◌then◌else◌, is_empty, length, false,
}
use cruvero_mcp_gateway.Prelude.Texts.{Text, text_eq, codes, trim_space, trim_prefix, cut}
use cruvero_mcp_gateway.Registration.Index.{CapabilityIndex, lookup_tool}

pub data NamespaceMode : Type 0 where
  reject always on_conflict : NamespaceMode

pub record NamespaceResolver : Type 0 where
  pub mode : NamespaceMode
  pub separator : Text
  pub index : Option CapabilityIndex

-- The switch of `NewNamespaceResolver` on the trimmed text.
unfoldable pub mode_of : Text → NamespaceMode
mode_of raw =
    if raw == codes "namespace_always"
    then always
    else if raw == codes "namespace_on_conflict"
    then on_conflict
    else reject

unfoldable pub new_namespace_resolver : Text → Text → Option CapabilityIndex → NamespaceResolver
unfolding mode_of
new_namespace_resolver mode separator index = record {
  mode = mode_of (trim_space mode);
  separator = if is_empty separator then codes "." else separator;
  index = index;
}

unfoldable pub is_conflict : NamespaceResolver → Text → Bool
is_conflict r tool_name = elim r.index [
  | none ↦ false
  | some index ↦ ltb 1 (length (lookup_tool index (trim_space tool_name)))
]

-- A server's name as it is shown.
unfoldable pub display_name : Text → Text
display_name server = trim_prefix server (codes "mcp-")

-- The switch of `ApplyNamespace`, of the trimmed names.
unfoldable pub prefixed : NamespaceResolver → NamespaceMode → Text → Text → Text
unfolding display_name is_conflict
prefixed r always tool server = display_name server ++ (r.separator ++ tool)
prefixed r on_conflict tool server =
    if is_conflict r tool then display_name server ++ (r.separator ++ tool) else tool
prefixed r reject tool server = tool

unfoldable pub apply_namespace : NamespaceResolver → Text → Text → Text
unfolding prefixed
apply_namespace r tool_name server_name =
    let tool = trim_space tool_name in
    let server = trim_space server_name in
    if is_empty tool || is_empty server then tool else prefixed r r.mode tool server

-- The hint of the server, and the name of the tool. A separator at the start counts as none.
unfoldable pub resolve_namespace : NamespaceResolver → Text → Text × Text
resolve_namespace r namespaced_name =
    let name = trim_space namespaced_name in
    elim (cut r.separator name) [
      | none ↦ ([], name)
      | some (hint, tool) ↦ if is_empty hint then ([], name) else (hint, tool)
    ]
