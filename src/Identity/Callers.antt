-- ===== src/Identity/Callers.antt =====
-- internal/identity/context.go: who a request comes from, as the limits and the policies read it.
use cruvero_mcp_gateway.Prelude.{◌≡◌, true, false, Option, none, some, is_empty}
use cruvero_mcp_gateway.Prelude.Texts.{Text, text_eq, codes, trim_space}
use cruvero_mcp_gateway.Prelude.Maps.{lookup}
use cruvero_mcp_gateway.Identity.{Identity}

-- The client that a caller counts as.
pub data CountsAs : Option Identity → Text → Type 0 where
  no_caller : CountsAs none (codes "anonymous")
  blank_id :
      {who : Identity}
      → is_empty (trim_space who.id) ≡ true
      → CountsAs (some who) (codes "anonymous")
  own_id :
      {who : Identity}
      → is_empty (trim_space who.id) ≡ false
      → CountsAs (some who) (trim_space who.id)

-- The profile that the metadata of a caller name, if any.
pub data NamesProfile : Option Identity → Option Text → Type 0 where
  no_caller : NamesProfile none none
  no_entry :
      {who : Identity}
      → lookup (codes "policy_profile") who.metadata ≡ none
      → NamesProfile (some who) none
  blank_entry :
      {who : Identity} {name : Text}
      → lookup (codes "policy_profile") who.metadata ≡ some name
      → is_empty (trim_space name) ≡ true
      → NamesProfile (some who) none
  entry :
      {who : Identity} {name : Text}
      → lookup (codes "policy_profile") who.metadata ≡ some name
      → is_empty (trim_space name) ≡ false
      → NamesProfile (some who) (some (trim_space name))
