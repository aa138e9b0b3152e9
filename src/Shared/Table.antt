-- ===== src/Shared/Table.antt =====
-- A Go map as an association list. `insert` keeps each key once; the order stands for the
-- iteration order, which Go leaves open.
use mathlib.Core.Path.{◌≡◌, refl}
use mathlib.Core.Logic.{inl, inr, ◌≢◌}
use mathlib.Core.Bool.{true, false}
use mathlib.Core.Option.{Option, none, some}
use mathlib.Core.List.{List, [], ◌∷◌}
use native.Mathlib.Omega.{arith}
use iot_zinx.Shared.Tests.{KeyEq, ◌==◌, if◌then◌else◌, Bool-cases}

module _ {K : Type 0} ⦃e : KeyEq K⦄ where
  pub ==-refl : (k : K) → (k == k) ≡ true
  ==-refl k = (e.same_iff k k).1 refl

  pub ==-ne : (j k : K) → j ≢ k → (j == k) ≡ false
  ==-ne j k h = elim (Bool-cases (j == k)) [ inl t ↦ absurd (h ((e.same_iff j k).0 t)) | inr f ↦ f ]

module _ {ℓ} {K : Type 0} {V : Type ℓ} ⦃e : KeyEq K⦄ where
  unfoldable pub lookup : K → List (K × V) → Option V
  lookup k [] = none
  lookup k ((j, v) ∷ m) = if j == k then some v else lookup k m

  unfoldable pub insert : K → V → List (K × V) → List (K × V)
  insert k v [] = (k, v) ∷ []
  insert k v ((j, w) ∷ m) = let rest = insert k v m in if j == k then (k, v) ∷ m else (j, w) ∷ rest

  unfoldable pub erase : K → List (K × V) → List (K × V)
  erase k [] = []
  erase k ((j, w) ∷ m) = let rest = erase k m in if j == k then rest else (j, w) ∷ rest

  pub lookup-insert_self : (k : K) (v : V) (m : List (K × V)) → lookup k (insert k v m) ≡ some v
  unfolding lookup insert
  lookup-insert_self k v [] = rw (==-refl k)
  lookup-insert_self k v ((j, w) ∷ m) = elim (Bool-cases (j == k)) [
    | inl t ↦ rw t (rw (==-refl k))
    | inr f ↦ rw f (rw f (lookup-insert_self k v m))
  ]

  pub lookup-insert_ne :
      (k j : K) (v : V) (m : List (K × V)) → k ≢ j → lookup j (insert k v m) ≡ lookup j m
  unfolding lookup insert
  lookup-insert_ne k j v [] h = rw (==-ne k j h)
  lookup-insert_ne k j v ((i, w) ∷ m) h = elim (Bool-cases (i == k)) [
    | inl t ↦ rw (t, ==-ne k j h, (e.same_iff i k).0 t, ==-ne k j h)
    | inr f ↦ rw f (ground (arith, lookup-insert_ne k j v m h))
  ]

  pub lookup-erase_self : (k : K) (m : List (K × V)) → lookup k (erase k m) ≡ none
  unfolding lookup erase
  lookup-erase_self k [] = refl
  lookup-erase_self k ((j, w) ∷ m) = ground (arith, lookup-erase_self k m)

  pub lookup-erase_ne : (k j : K) (m : List (K × V)) → k ≢ j → lookup j (erase k m) ≡ lookup j m
  unfolding lookup erase
  lookup-erase_ne k j [] h = refl
  lookup-erase_ne k j ((i, w) ∷ m) h = elim (Bool-cases (i == k)) [
    | inl t ↦ rw (t, (e.same_iff i k).0 t, ==-ne k j h) (lookup-erase_ne k j m h)
    | inr f ↦ rw f (ground (arith, lookup-erase_ne k j m h))
  ]
