-- ===== src/Shared/Adjust.antt =====
-- Changing the object that a table's entry points at, and `Range` up to the first entry that
-- satisfies a test.
use Prim.Native.Nat.{suc}
use mathlib.Core.Path.{◌≡◌, refl, sym, ap, ◌∙◌, subst}
use mathlib.Core.Logic.{inl, inr, ◌≢◌}
use mathlib.Core.Bool.{Bool, true, false}
use mathlib.Core.Option.{Option, none, some}
use mathlib.Core.List.{List, [], ◌∷◌}
use iot_zinx.Shared.Tests.{KeyEq, ◌==◌, if◌then◌else◌, Bool-cases}
use iot_zinx.Shared.Lists.{All, length}
use iot_zinx.Shared.Table.{lookup, ==-refl, ==-ne}
use iot_zinx.Shared.Keys.{IsFresh, IsDistinct, same_key, some-injective, none-ne-some}

-- `_, exists := m[k]`.
abbrev pub is_some {ℓ} : {A : Type ℓ} → Option A → Bool
is_some none = false
is_some (some a) = true

module _ {ℓ} {K : Type 0} {V : Type ℓ} where
  abbrev pub keys_of : List (K × V) → List K
  keys_of [] = []
  keys_of ((k, v) ∷ m) = k ∷ keys_of m

  -- The first entry, in the iteration order, whose value satisfies the test.
  abbrev pub find_first : (V → Bool) → List (K × V) → Option (K × V)
  find_first test [] = none
  find_first test ((k, v) ∷ m) =
      let rest = find_first test m in if test v then some (k, v) else rest

module _ {ℓ} {K : Type 0} {V : Type ℓ} ⦃e : KeyEq K⦄ where
  unfoldable pub adjust : K → (V → V) → List (K × V) → List (K × V)
  adjust k change [] = []
  adjust k change ((j, v) ∷ m) =
      let rest = adjust k change m in if j == k then (j, change v) ∷ m else (j, v) ∷ rest

  pub lookup-adjust-some :
      (k : K) (change : V → V) (m : List (K × V)) (v : V)
      → lookup k m ≡ some v
      → lookup k (adjust k change m) ≡ some (change v)
  unfolding lookup adjust
  lookup-adjust-some k change [] v h = absurd (none-ne-some h)
  lookup-adjust-some k change ((j, w) ∷ m) v h = elim (Bool-cases (j == k)) [
    | inl t ↦
        let same : some w ≡ some v = subst (λ b. (if b then some w else lookup k m) ≡ some v) t h in
        rw t (rw t (ap (λ x. some (change x)) (some-injective same)))
    | inr f ↦
        let later : lookup k m ≡ some v =
          subst (λ b. (if b then some w else lookup k m) ≡ some v) f h in
        rw f (rw f (lookup-adjust-some k change m v later))
  ]

  pub lookup-adjust-none :
      (k : K) (change : V → V) (m : List (K × V))
      → lookup k m ≡ none
      → lookup k (adjust k change m) ≡ none
  unfolding lookup adjust
  lookup-adjust-none k change [] h = refl
  lookup-adjust-none k change ((j, w) ∷ m) h = elim (Bool-cases (j == k)) [
    | inl t ↦
        absurd (none-ne-some (sym (subst (λ b. (if b then some w else lookup k m) ≡ none) t h)))
    | inr f ↦
        let later : lookup k m ≡ none =
          subst (λ b. (if b then some w else lookup k m) ≡ none) f h in
        rw f (rw f (lookup-adjust-none k change m later))
  ]

  pub lookup-adjust_ne :
      (k j : K) (change : V → V) (m : List (K × V))
      → k ≢ j
      → lookup j (adjust k change m) ≡ lookup j m
  unfolding lookup adjust
  lookup-adjust_ne k j change [] h = refl
  lookup-adjust_ne k j change ((i, w) ∷ m) h = elim (Bool-cases (i == k)) [
    | inl t ↦ rw (t, ==-ne i j (λ x. h (sym (same_key t) ∙ x))) refl
    | inr f ↦ rw f (elim (Bool-cases (i == j)) [
      | inl t ↦ rw t refl
      | inr g ↦ rw g (lookup-adjust_ne k j change m h)
    ])
  ]

  pub adjust-All {κ} :
      (P : K × V → Type κ) (k : K) (change : V → V) (m : List (K × V))
      → ((v : V) → P (k, v) → P (k, change v))
      → All P m
      → All P (adjust k change m)
  unfolding adjust
  adjust-All P k change [] keeps hs = tt
  adjust-All P k change ((j, w) ∷ m) keeps hs = elim (Bool-cases (j == k)) [
    | inl t ↦ rw t (
      subst (λ i. P (i, change w)) (sym (same_key t))
          (keeps w (subst (λ i. P (i, w)) (same_key t) hs.0)),
      hs.1,
    )
    | inr f ↦ rw f (hs.0, adjust-All P k change m keeps hs.1)
  ]

  adjust-IsFresh :
      (i k : K) (change : V → V) (m : List (K × V)) → IsFresh i m → IsFresh i (adjust k change m)
  adjust-IsFresh i k change m h = adjust-All (λ (p : K × V). p.0 ≢ i) k change m (λ v x. x) h

  pub adjust-IsDistinct :
      (k : K) (change : V → V) (m : List (K × V)) → IsDistinct m → IsDistinct (adjust k change m)
  unfolding adjust
  adjust-IsDistinct k change [] d = tt
  adjust-IsDistinct k change ((j, w) ∷ m) d = elim (Bool-cases (j == k)) [
    | inl t ↦ rw t d
    | inr f ↦ rw f (adjust-IsFresh j k change m d.0, adjust-IsDistinct k change m d.1)
  ]

  pub length-adjust :
      (k : K) (change : V → V) (m : List (K × V)) → length (adjust k change m) ≡ length m
  unfolding adjust
  length-adjust k change [] = refl
  length-adjust k change ((j, w) ∷ m) = elim (Bool-cases (j == k)) [
    | inl t ↦ rw t refl
    | inr f ↦ rw f (ap (λ n. suc n) (length-adjust k change m))
  ]

  -- What `Range` finds satisfies the test and is the entry of its key.
  pub find_first-holds :
      (test : V → Bool) (m : List (K × V)) (k : K) (v : V)
      → find_first test m ≡ some (k, v)
      → test v ≡ true
  find_first-holds test [] k v h = absurd (none-ne-some h)
  find_first-holds test ((j, w) ∷ m) k v h = elim (Bool-cases (test w)) [
    | inl t ↦
        let same : ◌≡◌ {A = K × V} (j, w) (k, v) =
          some-injective
            (subst (λ b. (if b then some (j, w) else find_first test m) ≡ some (k, v)) t h) in
        subst (λ (p : K × V). test p.1 ≡ true) same t
    | inr f ↦
        find_first-holds test m k v
          (subst (λ b. (if b then some (j, w) else find_first test m) ≡ some (k, v)) f h)
  ]

  pub find_first-All {κ} :
      (P : K × V → Type κ) (test : V → Bool) (m : List (K × V)) (k : K) (v : V)
      → All P m
      → find_first test m ≡ some (k, v)
      → P (k, v)
  find_first-All P test [] k v hs h = absurd (none-ne-some h)
  find_first-All P test ((j, w) ∷ m) k v hs h = elim (Bool-cases (test w)) [
    | inl t ↦
        let same : ◌≡◌ {A = K × V} (j, w) (k, v) =
          some-injective
            (subst (λ b. (if b then some (j, w) else find_first test m) ≡ some (k, v)) t h) in
        subst P same hs.0
    | inr f ↦
        find_first-All P test m k v hs.1
          (subst (λ b. (if b then some (j, w) else find_first test m) ≡ some (k, v)) f h)
  ]

  pub find_first-lookup :
      (test : V → Bool) (m : List (K × V)) (k : K) (v : V)
      → IsDistinct m
      → find_first test m ≡ some (k, v)
      → lookup k m ≡ some v
  unfolding lookup
  find_first-lookup test [] k v d h = absurd (none-ne-some h)
  find_first-lookup test ((j, w) ∷ m) k v d h = elim (Bool-cases (test w)) [
    | inl t ↦
        let same : ◌≡◌ {A = K × V} (j, w) (k, v) =
          some-injective
            (subst (λ b. (if b then some (j, w) else find_first test m) ≡ some (k, v)) t h) in
        rw (ap (λ (p : K × V). p.0) same, ==-refl k) (ap (λ (p : K × V). some p.1) same)
    | inr f ↦
        let later = subst (λ b. (if b then some (j, w) else find_first test m) ≡ some (k, v)) f h in
        let apart : j ≢ k =
          λ x. find_first-All (λ (p : K × V). p.0 ≢ j) test m k v d.0 later (sym x) in
        rw (==-ne j k apart) (find_first-lookup test m k v d.1 later)
  ]
