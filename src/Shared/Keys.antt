-- ===== src/Shared/Keys.antt =====
-- Tables in which each key stands once, and what the operations of `Table` keep of them.
use mathlib.Core.Path.{◌≡◌, refl, sym, ap, ◌∙◌, subst}
use mathlib.Core.Logic.{inl, inr, ◌≢◌}
use mathlib.Core.Bool.{true, false}
use mathlib.Core.Option.{none, some}
use mathlib.Core.List.{List, [], ◌∷◌}
use iot_zinx.Shared.Tests.{KeyEq, ◌==◌, if◌then◌else◌, Bool-cases}
use iot_zinx.Shared.Lists.{All}
use iot_zinx.Shared.Table.{lookup, insert, erase, ==-ne}

pub true-ne-false : true ≡ false → ⊥
true-ne-false h = subst (λ b. if b then Unit {0} else ⊥) h tt

pub some-injective {ℓ} : {A : Type ℓ} {a b : A} → some a ≡ some b → a ≡ b
some-injective h = cc

pub none-ne-some {ℓ} : {A : Type ℓ} {a : A} → none ≡ some a → ⊥
none-ne-some h = cc

pair_eq {ℓ κ} :
    {A : Type ℓ} {B : Type κ} {a c : A} {b d : B} → a ≡ c → b ≡ d → ◌≡◌ {A = A × B} (a, b) (c, d)
pair_eq h k = cc

module _ {K : Type 0} ⦃e : KeyEq K⦄ where
  pub same_key : {j k : K} → (j == k) ≡ true → j ≡ k
  same_key {j} {k} t = (e.same_iff j k).0 t

  pub other_key : {j k : K} → (j == k) ≡ false → j ≢ k
  other_key {j} {k} f h = true-ne-false (sym ((e.same_iff j k).1 h) ∙ f)

module _ {ℓ} {K : Type 0} {V : Type ℓ} ⦃e : KeyEq K⦄ where
  abbrev pub IsFresh : K → List (K × V) → Type 0
  IsFresh k m = All (λ (p : K × V). p.0 ≢ k) m

  abbrev pub IsDistinct : List (K × V) → Type 0
  IsDistinct [] = Unit {0}
  IsDistinct ((k, v) ∷ m) = IsFresh k m × IsDistinct m

  pub insert-All {κ} :
      (P : K × V → Type κ) (k : K) (v : V) (m : List (K × V))
      → P (k, v)
      → All P m
      → All P (insert k v m)
  unfolding insert
  insert-All P k v [] h hs = (h, tt)
  insert-All P k v ((j, w) ∷ m) h hs = elim (Bool-cases (j == k)) [
    | inl t ↦ rw t (h, hs.1)
    | inr f ↦ rw f (hs.0, insert-All P k v m h hs.1)
  ]

  pub erase-All {κ} : (P : K × V → Type κ) (k : K) (m : List (K × V)) → All P m → All P (erase k m)
  unfolding erase
  erase-All P k [] hs = tt
  erase-All P k ((j, w) ∷ m) hs = elim (Bool-cases (j == k)) [
    | inl t ↦ rw t (erase-All P k m hs.1)
    | inr f ↦ rw f (hs.0, erase-All P k m hs.1)
  ]

  pub insert-IsDistinct :
      (k : K) (v : V) (m : List (K × V)) → IsDistinct m → IsDistinct (insert k v m)
  unfolding insert
  insert-IsDistinct k v [] h = (tt, tt)
  insert-IsDistinct k v ((j, w) ∷ m) h = elim (Bool-cases (j == k)) [
    | inl t ↦ rw t (subst (λ x. IsFresh x m) (same_key t) h.0, h.1)
    | inr f ↦ rw f (
      insert-All (λ (p : K × V). p.0 ≢ j) k v m (λ x. other_key f (sym x)) h.0,
      insert-IsDistinct k v m h.1,
    )
  ]

  pub erase-IsDistinct : (k : K) (m : List (K × V)) → IsDistinct m → IsDistinct (erase k m)
  unfolding erase
  erase-IsDistinct k [] h = tt
  erase-IsDistinct k ((j, w) ∷ m) h = elim (Bool-cases (j == k)) [
    | inl t ↦ rw t (erase-IsDistinct k m h.1)
    | inr f ↦ rw f (erase-All (λ (p : K × V). p.0 ≢ j) k m h.0, erase-IsDistinct k m h.1)
  ]

  -- Nothing is found at a fresh key.
  pub lookup-IsFresh : (k : K) (m : List (K × V)) → IsFresh k m → lookup k m ≡ none
  unfolding lookup
  lookup-IsFresh k [] h = refl
  lookup-IsFresh k ((j, w) ∷ m) h = rw (==-ne j k h.0) (lookup-IsFresh k m h.1)

  pub lookup-All {κ} :
      (P : K × V → Type κ) (k : K) (v : V) (m : List (K × V))
      → All P m
      → lookup k m ≡ some v
      → P (k, v)
  unfolding lookup
  lookup-All P k v [] hs h = absurd (none-ne-some h)
  lookup-All P k v ((j, w) ∷ m) hs h = elim (Bool-cases (j == k)) [
    | inl t ↦
        let h2 : some w ≡ some v = subst (λ b. (if b then some w else lookup k m) ≡ some v) t h in
        subst P (pair_eq (same_key t) (some-injective h2)) hs.0
    | inr f ↦ lookup-All P k v m hs.1 (subst (λ b. (if b then some w else lookup k m) ≡ some v) f h)
  ]

  -- Deleting a key that is not there changes nothing.
  pub erase_absent : (k : K) (m : List (K × V)) → lookup k m ≡ none → erase k m ≡ m
  unfolding lookup erase
  erase_absent k [] h = refl
  erase_absent k ((j, w) ∷ m) h = elim (Bool-cases (j == k)) [
    | inl t ↦
        absurd (none-ne-some (sym (subst (λ b. (if b then some w else lookup k m) ≡ none) t h)))
    | inr f ↦ rw f (
        ap (λ (x : List (K × V)). (j, w) ∷ x)
          (erase_absent k m (subst (λ b. (if b then some w else lookup k m) ≡ none) f h)))
  ]
