-- ===== src/RateLimit/Keys/Labels.antt =====
-- Which keys a snapshot of the memory backend reports as they are.
use cruvero_mcp_gateway.Prelude.{
  ◌≡◌, refl, ap, ◌↔◌, Bool, false, [], ◌∷◌, ◌++◌, inl, inr, Option-cases, sym, ◌∙◌,
}
use cruvero_mcp_gateway.Prelude.Texts.{Text, text_eq, cut}
use cruvero_mcp_gateway.Prelude.Cuts.{has_char, cut-append, cut_no_char, cut-append-ne-none}
use cruvero_mcp_gateway.RateLimit.Keys.{LimiterKey, key_string, label}

-- Whether a colon occurs in a text.
unfoldable pub has_colon : Text → Bool
unfolding has_char
has_colon s = has_char b':' s

label_no_colon :
    (client route : Text) → has_colon (label (client ++ (b':' ∷ route))).client_id ≡ false
unfolding label has_colon
label_no_colon client route = elim (Option-cases (cut (b':' ∷ []) (client ++ (b':' ∷ route)))) [
  | inl e ↦ absurd (cut-append-ne-none b':' client route e)
  | inr ((c, r), e) ↦ rw (e, label) (cut_no_char b':' (client ++ (b':' ∷ route)) c r e)
]

label_of_key : (k : LimiterKey) → has_colon (label (key_string k)).client_id ≡ false
unfolding key_string
label_of_key k = label_no_colon k.client_id k.route

-- A key is read back from its text as it was exactly if its client has no colon.
pub label-key_string :
    (k : LimiterKey) → (label (key_string k) ≡ k) ↔ (has_colon k.client_id ≡ false)
unfolding label key_string has_colon
label-key_string k = (
  λ e. ap (λ l. has_colon l.client_id) (sym e) ∙ label_of_key k,
  λ h. rw (cut-append b':' k.client_id k.route h, label) refl,
)
