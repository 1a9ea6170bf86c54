-- ===== src/Prelude/Maps.antt =====
-- A Go map as an association list. Its order stands for the order of a `range` loop.
use cruvero_mcp_gateway.Prelude.Tests.{Eq, ◌==◌, eq_iff, eq_self, if◌then◌else◌, Bool-cases}
use mathlib.Core.Path.{◌≡◌, refl, subst}
use mathlib.Core.Logic.{inl, inr}
use cruvero_mcp_gateway.Prelude.Lists.{All}
use mathlib.Core.Option.{Option, none, some}
use mathlib.Core.List.{List, [], ◌∷◌}
use native.Mathlib.Omega.{arith}

abbrev pub Map {ℓ κ} : Type ℓ → Type κ → Type (ℓ ⊔ κ)
Map K V = List (K × V)

module _ {ℓ κ} {K : Type ℓ} {V : Type κ} ⦃keys : Eq K⦄ where
  -- delete(m, key)
  unfoldable pub delete : K → Map K V → Map K V
  delete key [] = []
  delete key ((other, held) ∷ rest) =
      if other == key then delete key rest else (other, held) ∷ delete key rest

  -- m[key], with none for a missing key.
  unfoldable pub lookup : K → Map K V → Option V
  lookup key [] = none
  lookup key ((other, held) ∷ rest) = if other == key then some held else lookup key rest

  pub lookup-delete :
      (gone asked : K) (m : Map K V)
      → lookup asked (delete gone m) ≡ (if gone == asked then none else lookup asked m)
  unfolding lookup delete
  lookup-delete gone asked [] = ground arith
  lookup-delete gone asked ((other, held) ∷ rest) = ground (
    arith,
    lookup-delete gone asked rest,
    eq_iff other asked,
    eq_iff other gone,
    eq_iff gone asked,
  )

  -- m[key] = value
  unfoldable pub insert : K → V → Map K V → Map K V
  insert key value [] = (key, value) ∷ []
  insert key value ((other, held) ∷ rest) =
      if other == key then (key, value) ∷ rest else (other, held) ∷ insert key value rest

  pub lookup-insert :
      (put asked : K) (value : V) (m : Map K V)
      → lookup asked (insert put value m) ≡ (if put == asked then some value else lookup asked m)
  unfolding lookup insert
  lookup-insert put asked value [] = refl
  lookup-insert put asked value ((other, held) ∷ rest) = ground (
    arith,
    lookup-insert put asked value rest,
    eq_iff other asked,
    eq_iff other put,
    eq_iff put asked,
  )

  pub lookup-insert_self :
      (put : K) (value : V) (m : Map K V) → lookup put (insert put value m) ≡ some value
  lookup-insert_self put value m = rw (lookup-insert put put value m, eq_self put)

  -- What all values of a map have in common.
  abbrev pub AllValues {μ} : (V → Type μ) → Map K V → Type μ
  AllValues P m = All (λ e. P e.1) m

  pub insert-AllValues {μ} :
      (P : V → Type μ) (key : K) (value : V) (m : Map K V)
      → P value
      → AllValues P m
      → AllValues P (insert key value m)
  unfolding insert
  insert-AllValues P key value [] p all = (p, tt)
  insert-AllValues P key value ((other, held) ∷ rest) p (first, all) =
      elim (Bool-cases (other == key)) [
        | inl same ↦ rw (insert, same) (p, all)
        | inr apart ↦ rw (insert, apart) (first, insert-AllValues P key value rest p all)
      ]

  pub lookup-AllValues {μ} :
      (P : V → Type μ) (key : K) (value : V) (m : Map K V)
      → AllValues P m
      → lookup key m ≡ some value
      → P value
  unfolding lookup
  lookup-AllValues P key value [] all h = ground arith
  lookup-AllValues P key value ((other, held) ∷ rest) (first, all) h =
      elim (Bool-cases (other == key)) [
        | inl same ↦ let e : held ≡ value = ground arith in subst (λ x. P x) e first
        | inr apart ↦ lookup-AllValues P key value rest all (ground arith)
      ]
