-- ===== src/Proxy/Scope.antt =====
-- internal/auth/server_scope.go: the servers that a caller may use. The middleware around the check
-- and the context that carries the scope are HTTP glue.
use cruvero_mcp_gateway.Prelude.{Bool, true, false, ◌||◌, List, if◌then◌else◌, is_empty, any}
use cruvero_mcp_gateway.Prelude.Texts.{Text, codes, trim_space, trim_prefix, equal_fold}

unfoldable pub server_in_scope : Text → List Text → Bool
unfolding any equal_fold trim_prefix
server_in_scope server_name scope =
    let name = trim_space server_name in
    let stripped = trim_prefix name (codes "mcp-") in
    if is_empty name
    then false
    else any
        (λ allowed.
          equal_fold name (trim_space allowed) || equal_fold stripped (trim_space allowed))
        scope

-- No scope is access to all servers.
unfoldable pub check_server_scope : List Text → Text → Bool
unfolding server_in_scope
check_server_scope scope server_name =
    if is_empty scope then true else server_in_scope server_name scope
