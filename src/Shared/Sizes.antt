-- ===== src/Shared/Sizes.antt =====
-- The number of entries of a table, and which keys its operations leave.
use Prim.Native.Nat.{suc}
use mathlib.Core.Path.{◌≡◌, refl, sym, ap, subst}
use mathlib.Core.Logic.{inl, inr, ◌≢◌}
use mathlib.Core.Bool.{true}
use mathlib.Core.Option.{none, some}
use mathlib.Core.List.{List, [], ◌∷◌}
use iot_zinx.Shared.Tests.{KeyEq, ◌==◌, if◌then◌else◌, Bool-cases}
use iot_zinx.Shared.Lists.{All, length}
use iot_zinx.Shared.Table.{lookup, insert, erase}
use iot_zinx.Shared.Keys.{
  IsFresh, IsDistinct, same_key, other_key, none-ne-some, true-ne-false, erase-All,
  erase-IsDistinct,
}
use iot_zinx.Shared.Sweep.{erase_keys}
use iot_zinx.Shared.Adjust.{is_some, keys_of}

pub All-map2 {ℓ κ μ ν} :
    {A : Type ℓ} (P : A → Type κ) (Q : A → Type μ) (R : A → Type ν) (xs : List A)
    → ((a : A) → P a → Q a → R a)
    → All P xs
    → All Q xs
    → All R xs
All-map2 P Q R [] f h k = tt
All-map2 P Q R (x ∷ xs) f h k = (f x h.0 k.0, All-map2 P Q R xs f h.1 k.1)

pub All-map {ℓ κ ν} :
    {A : Type ℓ} (P : A → Type κ) (R : A → Type ν) (xs : List A)
    → ((a : A) → P a → R a)
    → All P xs
    → All R xs
All-map P R xs f h = All-map2 P P R xs (λ a p q. f a p) h h

All-always {ℓ κ} : {A : Type ℓ} (P : A → Type κ) (xs : List A) → ((a : A) → P a) → All P xs
All-always P [] f = tt
All-always P (x ∷ xs) f = (f x, All-always P xs f)

module _ {ℓ} {K : Type 0} {V : Type ℓ} ⦃e : KeyEq K⦄ where
  erase_fresh : (k : K) (m : List (K × V)) → IsFresh k m → erase k m ≡ m
  unfolding erase
  erase_fresh k [] h = refl
  erase_fresh k ((j, w) ∷ m) h = elim (Bool-cases (j == k)) [
    | inl t ↦ absurd (h.0 (same_key t))
    | inr f ↦ rw f (ap (λ (x : List (K × V)). (j, w) ∷ x) (erase_fresh k m h.1))
  ]

  pub length-insert_new :
      (k : K) (v : V) (m : List (K × V))
      → lookup k m ≡ none
      → length (insert k v m) ≡ suc (length m)
  unfolding lookup insert
  length-insert_new k v [] h = refl
  length-insert_new k v ((j, w) ∷ m) h = elim (Bool-cases (j == k)) [
    | inl t ↦
        absurd (none-ne-some (sym (subst (λ b. (if b then some w else lookup k m) ≡ none) t h)))
    | inr f ↦
        let later = subst (λ b. (if b then some w else lookup k m) ≡ none) f h in
        rw f (ap (λ n. suc n) (length-insert_new k v m later))
  ]

  pub length-erase_found :
      (k : K) (v : V) (m : List (K × V))
      → IsDistinct m
      → lookup k m ≡ some v
      → length m ≡ suc (length (erase k m))
  unfolding lookup erase
  length-erase_found k v [] d h = absurd (none-ne-some h)
  length-erase_found k v ((j, w) ∷ m) d h = elim (Bool-cases (j == k)) [
    | inl t ↦ rw t (
        ap (λ (x : List (K × V)). suc (length x))
          (sym (erase_fresh k m (subst (λ i. IsFresh i m) (same_key t) d.0))))
    | inr f ↦
        let later = subst (λ b. (if b then some w else lookup k m) ≡ some v) f h in
        rw f (ap (λ n. suc n) (length-erase_found k v m d.1 later))
  ]

  erase-IsFresh : (k : K) (m : List (K × V)) → IsFresh k (erase k m)
  unfolding erase
  erase-IsFresh k [] = tt
  erase-IsFresh k ((j, w) ∷ m) = elim (Bool-cases (j == k)) [
    | inl t ↦ rw t (erase-IsFresh k m)
    | inr f ↦ rw f (other_key f, erase-IsFresh k m)
  ]

module _ {K V : Type 0} ⦃e : KeyEq K⦄ where
  pub erase_keys-All {κ} :
      (P : K × V → Type κ) (ks : List K) (m : List (K × V)) → All P m → All P (erase_keys ks m)
  erase_keys-All P [] m h = h
  erase_keys-All P (k ∷ ks) m h = erase_keys-All P ks (erase k m) (erase-All P k m h)

  -- No erased key is left.
  pub erase_keys-gone :
      (ks : List K) (m : List (K × V))
      → All (λ (p : K × V). All (λ k. k ≢ p.0) ks) (erase_keys ks m)
  erase_keys-gone [] m = All-always (λ (p : K × V). All (λ k. k ≢ p.0) []) m (λ p. tt)
  erase_keys-gone (k ∷ ks) m =
      All-map2 (λ (p : K × V). p.0 ≢ k) (λ (p : K × V). All (λ j. j ≢ p.0) ks)
        (λ (p : K × V). All (λ j. j ≢ p.0) (k ∷ ks)) (erase_keys ks (erase k m))
        (λ p x xs. (λ y. x (sym y), xs))
        (erase_keys-All (λ (p : K × V). p.0 ≢ k) ks (erase k m) (erase-IsFresh k m))
        (erase_keys-gone ks (erase k m))

  pub found_among :
      (k : K) (m : List (K × V)) → is_some (lookup k m) ≡ true → All (λ j. j ≢ k) (keys_of m) → ⊥
  unfolding lookup
  found_among k [] h a = true-ne-false (sym h)
  found_among k ((j, w) ∷ m) h a = elim (Bool-cases (j == k)) [
    | inl t ↦ a.0 (same_key t)
    | inr f ↦
        found_among k m (subst (λ b. is_some (if b then some w else lookup k m) ≡ true) f h) a.1
  ]

  pub erase_keys-IsDistinct :
      (ks : List K) (m : List (K × V)) → IsDistinct m → IsDistinct (erase_keys ks m)
  erase_keys-IsDistinct [] m h = h
  erase_keys-IsDistinct (k ∷ ks) m h = erase_keys-IsDistinct ks (erase k m) (erase-IsDistinct k m h)
