-- ===== src/Prelude/Maps.antt =====
-- A Go map as an association list in the order in which a `range` loop visits it: each key stands
-- once, and a write replaces the entry of its key or adds one.
use mathlib.Core.Path.{◌≡◌}
use mathlib.Core.Bool.{Bool, true, false}
use mathlib.Core.List.{List, [], ◌∷◌}
use mathlib.Core.Option.{Option, none, some}
use mathlib.Core.Logic.{inl, inr}
use harmony_go.Prelude.Tests.{if◌then◌else◌, Bool-cases}

abbrev pub Map {ℓ κ} : Type ℓ → Type κ → Type (ℓ ⊔ κ)
Map K V = List (K × V)

-- `eq` is the `==` of the key type.
module _ {ℓ κ} {K : Type ℓ} {V : Type κ} (eq : K → K → Bool) where
  abbrev pub lookup : K → Map K V → Option V
  lookup k [] = none
  lookup k ((j, v) ∷ m) = if eq j k then some v else lookup k m

  abbrev pub insert : K → V → Map K V → Map K V
  insert k v [] = (k, v) ∷ []
  insert k v ((j, w) ∷ m) = if eq j k then (j, v) ∷ m else (j, w) ∷ insert k v m

-- The laws of a map whose key test decides equality.
module _ {ℓ κ} {K : Type ℓ} {V : Type κ} (eq : K → K → Bool)
    (sound : (a b : K) → eq a b ≡ true → a ≡ b) (same : (a : K) → eq a a ≡ true) where
  pub lookup-insert_self : (k : K) (v : V) (m : Map K V) → lookup eq k (insert eq k v m) ≡ some v
  lookup-insert_self k v [] = rw (same k)
  lookup-insert_self k v ((j, w) ∷ m) = elim (Bool-cases (eq j k)) [
    | inl e ↦ rw e (rw e)
    | inr e ↦ rw e (rw e (lookup-insert_self k v m))
  ]

  pub lookup-insert_ne :
      (k j : K) (v : V) (m : Map K V)
      → eq k j ≡ false
      → lookup eq j (insert eq k v m) ≡ lookup eq j m
  lookup-insert_ne k j v [] h = rw h
  lookup-insert_ne k j v ((i, w) ∷ m) h = elim (Bool-cases (eq i k)) [
    | inl e ↦ let e' : i ≡ k = sound i k e in let h' : eq i j ≡ false = rw e' h in rw e (rw (h'))
    | inr e ↦ elim (Bool-cases (eq i j)) [
      | inl f ↦ rw e (rw f)
      | inr f ↦ rw e (rw f (lookup-insert_ne k j v m h))
    ]
  ]
