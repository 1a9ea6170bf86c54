-- ===== src/Registration/Config/Order.antt =====
-- internal/registration/service.go: the hash of the capabilities does not hang on their order.
use cruvero_mcp_gateway.Types.{Capability}
use mathlib.Core.List.{Perm, Permᴰ}
use mathlib.Core.Logic.{∥∥₁_elim}
use cruvero_mcp_gateway.Prelude.{
  ◌≡◌, refl, inl, inr, ◌⊎◌, arith, true, List, [], ◌∷◌, ap₂, sym, ◌∙◌,
}
use cruvero_mcp_gateway.Prelude.Texts.{Text}
use cruvero_mcp_gateway.Registration.Config.{text_leb, insert_text, sort_strings, hash_capabilities}

text_leb_total : (s t : Text) → (text_leb s t ≡ true) ⊎ (text_leb t s ≡ true)
unfolding text_leb
text_leb_total [] t = inl refl
text_leb_total (c ∷ s) [] = inr refl
text_leb_total (c ∷ s) (d ∷ t) = ground (arith, text_leb_total s t)

text_leb_antisym : (s t : Text) → text_leb s t ≡ true → text_leb t s ≡ true → s ≡ t
unfolding text_leb
text_leb_antisym [] [] h k = refl
text_leb_antisym [] (d ∷ t) h k = ground arith
text_leb_antisym (c ∷ s) [] h k = ground arith
text_leb_antisym (c ∷ s) (d ∷ t) h k = ground (arith, text_leb_antisym s t)

text_leb_trans : (s t u : Text) → text_leb s t ≡ true → text_leb t u ≡ true → text_leb s u ≡ true
unfolding text_leb
text_leb_trans [] t u h k = refl
text_leb_trans (c ∷ s) [] u h k = ground arith
text_leb_trans (c ∷ s) (d ∷ t) [] h k = ground arith
text_leb_trans (c ∷ s) (d ∷ t) (e ∷ u) h k = ground (arith, text_leb_trans s t u)

insert_text_swap :
    (s t : Text) (ts : List Text)
    → insert_text s (insert_text t ts) ≡ insert_text t (insert_text s ts)
unfolding insert_text
insert_text_swap s t [] = ground (arith, text_leb_total s t, text_leb_antisym s t)
insert_text_swap s t (u ∷ us) = ground (
  arith,
  text_leb_total s t,
  text_leb_antisym s t,
  text_leb_trans s t u,
  text_leb_trans t s u,
  insert_text_swap s t us,
)

sort_strings_perm : {ss ts : List Text} → Permᴰ ss ts → sort_strings ss ≡ sort_strings ts
unfolding sort_strings
sort_strings_perm Permᴰ.nil = refl
sort_strings_perm (Permᴰ.cons e p) = ap₂ insert_text e (sort_strings_perm p)
sort_strings_perm (Permᴰ.swap {a = a} {b = b} {l = l} e f) =
    rw (sym e, sym f) (insert_text_swap a b (sort_strings l))
sort_strings_perm (Permᴰ.trans p q) = sort_strings_perm p ∙ sort_strings_perm q

sorted_same : {ss ts : List Text} → Perm ss ts → sort_strings ss ≡ sort_strings ts
sorted_same p = ∥∥₁_elim p (hlevel) sort_strings_perm

-- Two capabilities that list the same tools, resources and prompts, in whatever orders, have the
-- same hash.
pub hash_capabilities-Perm :
    (digest : Capability → Text) (c d : Capability)
    → Perm c.tools d.tools
    → Perm c.resources d.resources
    → Perm c.prompts d.prompts
    → hash_capabilities digest c ≡ hash_capabilities digest d
unfolding hash_capabilities
hash_capabilities-Perm digest c d tools resources prompts =
    rw (sorted_same tools, sorted_same resources, sorted_same prompts) refl
