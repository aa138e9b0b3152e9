-- ===== src/Shared/Sweep.antt =====
-- Collecting the keys of the values that satisfy a test and then deleting them: the loops over
-- `keysToRemove`, `expiredKeys` and the like.
use mathlib.Core.Path.{◌≡◌, refl, sym, ap, ◌∙◌, subst}
use mathlib.Core.Logic.{inl, inr, ◌≢◌, ◌⊎◌, ◌↔◌}
use mathlib.Core.Bool.{Bool, true, false}
use mathlib.Core.Option.{Option, none, some}
use mathlib.Core.List.{List, [], ◌∷◌}
use iot_zinx.Shared.Tests.{KeyEq, ◌==◌, if◌then◌else◌, Bool-cases, Option-cases}
use iot_zinx.Shared.Lists.{All}
use iot_zinx.Shared.Table.{lookup, erase, lookup-erase_self, lookup-erase_ne}
use iot_zinx.Shared.Keys.{IsFresh, IsDistinct, none-ne-some, some-injective, true-ne-false}

module _ {V : Type 0} where
  -- What deleting the values that satisfy the test leaves of a value.
  abbrev pub spared : (V → Bool) → Option V → Option V
  spared doomed none = none
  spared doomed (some v) = if doomed v then none else some v

  -- A value with the property is gone, every other value is as it was.
  abbrev pub Removes : (V → Type 0) → Option V → Option V → Type 0
  Removes P none after = after ≡ none
  Removes P (some v) after = (P v × (after ≡ none)) ⊎ ((P v → ⊥) × (after ≡ some v))

  pub spared-Removes :
      (doomed : V → Bool) (P : V → Type 0)
      → ((v : V) → (doomed v ≡ true) ↔ P v)
      → (o : Option V) → Removes P o (spared doomed o)
  spared-Removes doomed P same none = refl
  spared-Removes doomed P same (some v) = elim (Bool-cases (doomed v)) [
    | inl t ↦ rw t (inl ((same v).0 t, refl))
    | inr t ↦ rw t (inr (λ p. true-ne-false (sym ((same v).1 p) ∙ t), refl))
  ]

module _ {K : Type 0} ⦃ev : KeyEq K⦄ where
  differs : (k key : K) → (k == key) ≡ false → k ≢ key
  differs k key f e = absurd (true-ne-false (sym ((ev.same_iff k key).1 e) ∙ f))

module _ {K V : Type 0} ⦃ev : KeyEq K⦄ where
  abbrev pub keys_where : (V → Bool) → List (K × V) → List K
  keys_where doomed [] = []
  keys_where doomed ((k, v) ∷ m) =
      let rest = keys_where doomed m in if doomed v then k ∷ rest else rest

  abbrev pub erase_keys : List K → List (K × V) → List (K × V)
  erase_keys [] m = m
  erase_keys (k ∷ keys) m = erase_keys keys (erase k m)

  erase-none : (k key : K) (m : List (K × V)) → lookup key m ≡ none → lookup key (erase k m) ≡ none
  erase-none k key m h = elim (Bool-cases (k == key)) [
    | inl t ↦ rw ((ev.same_iff k key).0 t) (lookup-erase_self key m)
    | inr f ↦
        lookup-erase_ne k key m (λ e. absurd (true-ne-false (sym ((ev.same_iff k key).1 e) ∙ f)))
        ∙ h
  ]

  pub erase_keys-lookup_in :
      (keys : List K) (key : K) (m : List (K × V))
      → lookup key m ≡ none
      → lookup key (erase_keys keys m) ≡ none
  erase_keys-lookup_in [] key m h = h
  erase_keys-lookup_in (k ∷ keys) key m h =
      erase_keys-lookup_in keys key (erase k m) (erase-none k key m h)

  pub erase_keys-lookup_out :
      (keys : List K) (key : K) (m : List (K × V))
      → All (λ k. k ≢ key) keys
      → lookup key (erase_keys keys m) ≡ lookup key m
  erase_keys-lookup_out [] key m h = refl
  erase_keys-lookup_out (k ∷ keys) key m h =
      erase_keys-lookup_out keys key (erase k m) h.1 ∙ lookup-erase_ne k key m h.0

  found_later :
      (k key : K) (v w : V) (m : List (K × V))
      → (k == key) ≡ false
      → lookup key ((k, v) ∷ m) ≡ some w
      → lookup key m ≡ some w
  unfolding lookup
  found_later k key v w m f h = subst (λ b. (if b then some v else lookup key m) ≡ some w) f h

  found_here :
      (k key : K) (v w : V) (m : List (K × V))
      → (k == key) ≡ true
      → lookup key ((k, v) ∷ m) ≡ some w
      → v ≡ w
  unfolding lookup
  found_here k key v w m t h =
      some-injective (subst (λ b. (if b then some v else lookup key m) ≡ some w) t h)

module _ {K V : Type 0} ⦃ev : KeyEq K⦄ (doomed : V → Bool) where
  -- The doomed keys of a table without `key` are without it.
  keys_where-fresh :
      (key : K) (m : List (K × V)) → IsFresh key m → All (λ k. k ≢ key) (keys_where doomed m)
  keys_where-fresh key [] h = tt
  keys_where-fresh key ((k, w) ∷ m) h = elim (Bool-cases (doomed w)) [
    | inl t ↦ rw t (h.0, keys_where-fresh key m h.1)
    | inr t ↦ rw t (keys_where-fresh key m h.1)
  ]

  -- The key of a doomed value is erased.
  doomed_gone :
      (key : K) (w : V) (om m : List (K × V))
      → lookup key om ≡ some w
      → doomed w ≡ true
      → lookup key (erase_keys (keys_where doomed om) m) ≡ none
  unfolding lookup
  doomed_gone key w [] m h s = absurd (none-ne-some h)
  doomed_gone key w ((k, v) ∷ om) m h s = elim (Bool-cases (k == key)) [
    | inl t ↦
        let first : doomed v ≡ true = ap doomed (found_here k key v w om t h) ∙ s in
        rw (first, (ev.same_iff k key).0 t)
          (erase_keys-lookup_in (keys_where doomed om) key (erase key m) (lookup-erase_self key m))
    | inr f ↦ elim (Bool-cases (doomed v)) [
      | inl t ↦ rw t (doomed_gone key w om (erase k m) (found_later k key v w om f h) s)
      | inr u ↦ rw u (doomed_gone key w om m (found_later k key v w om f h) s)
    ]
  ]

  -- The key of a value that is not doomed is not among the doomed keys.
  other_kept :
      (key : K) (w : V) (m : List (K × V))
      → IsDistinct m
      → lookup key m ≡ some w
      → doomed w ≡ false
      → All (λ k. k ≢ key) (keys_where doomed m)
  unfolding lookup
  other_kept key w [] d h s = tt
  other_kept key w ((k, v) ∷ m) d h s = elim (Bool-cases (k == key)) [
    | inl t ↦
        let first : doomed v ≡ false = ap doomed (found_here k key v w m t h) ∙ s in
        rw first (keys_where-fresh key m (subst (λ x. IsFresh x m) ((ev.same_iff k key).0 t) d.0))
    | inr f ↦
        let rest = other_kept key w m d.1 (found_later k key v w m f h) s in
        elim (Bool-cases (doomed v)) [ inl t ↦ rw t (differs k key f, rest) | inr u ↦ rw u rest ]
  ]

  -- Deleting the keys collected by a test removes exactly the values that satisfy it.
  pub sweep-lookup :
      (key : K) (m : List (K × V))
      → IsDistinct m
      → lookup key (erase_keys (keys_where doomed m) m) ≡ spared doomed (lookup key m)
  sweep-lookup key m d = elim (Option-cases (lookup key m)) [
    | inl e ↦ rw e (erase_keys-lookup_in (keys_where doomed m) key m e)
    | inr (w, e) ↦ elim (Bool-cases (doomed w)) [
      | inl t ↦ rw (e, t) (doomed_gone key w m m e t)
      | inr f ↦
          rw (e, f)
            (erase_keys-lookup_out (keys_where doomed m) key m (other_kept key w m d e f) ∙ e)
    ]
  ]
