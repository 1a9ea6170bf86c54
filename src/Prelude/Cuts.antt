-- ===== src/Prelude/Cuts.antt =====
-- Cutting a text at a separator of one character.
use Prim.Native.Nat.{ℕ}
use mathlib.Core.Path.{◌≡◌}
use mathlib.Core.Logic.{◌≢◌, inl, inr}
use mathlib.Core.Bool.{Bool, false}
use mathlib.Core.Option.{none, some}
use mathlib.Core.List.{[], ◌∷◌, ◌++◌}
use native.Mathlib.Omega.{arith}
use cruvero_mcp_gateway.Prelude.Tests.{nat_beq, Option-cases}
use cruvero_mcp_gateway.Prelude.Lists.{any}
use cruvero_mcp_gateway.Prelude.Texts.{Text, cut, has_prefix}

-- Whether a character occurs in a text.
unfoldable pub has_char : ℕ → Text → Bool
unfolding any
has_char mark s = any (nat_beq mark) s

pub cut-append :
    (mark : ℕ) (a b : Text)
    → has_char mark a ≡ false
    → cut (mark ∷ []) (a ++ (mark ∷ b)) ≡ some (a, b)
unfolding has_char cut has_prefix
cut-append mark [] b h = ground arith
cut-append mark (c ∷ a) b h = ground (arith, cut-append mark a b)

pub cut_no_char :
    (mark : ℕ) (s a b : Text) → cut (mark ∷ []) s ≡ some (a, b) → has_char mark a ≡ false
unfolding has_char cut has_prefix
cut_no_char mark [] a b h = ground arith
cut_no_char mark (c ∷ s) a b h = elim (Option-cases (cut (mark ∷ []) s)) [
  | inl e ↦ ground arith
  | inr (parts, e) ↦ ground (arith, cut_no_char mark s parts.0 parts.1)
]

pub cut-append-ne-none : (mark : ℕ) (a b : Text) → cut (mark ∷ []) (a ++ (mark ∷ b)) ≢ none
unfolding cut has_prefix
cut-append-ne-none mark [] b = ground arith
cut-append-ne-none mark (c ∷ a) b = ground (arith, cut-append-ne-none mark a b)
