-- ===== src/Shared/Outcome.antt =====
-- What a Go call gives back: a value, an error, or a panic that ends the goroutine.
use mathlib.Core.Path.{◌≡◌}
use mathlib.Core.Bool.{Bool, true, false}
use mathlib.Core.Option.{Option, none, some}

pub data Result {ℓ} (E : Type 0) (A : Type ℓ) : Type ℓ where
  ok : A → Result E A
  err : E → Result E A
  panic : Result E A

infixl 5 ◌>>=◌ ◌>>◌
abbrev pub ◌>>=◌ {ℓ κ} :
    {E : Type 0} {A : Type ℓ} {B : Type κ} → Result E A → (A → Result E B) → Result E B
ok a >>= f = f a
err e >>= f = err e
panic >>= f = panic

abbrev pub ◌>>◌ {κ} : {E : Type 0} {B : Type κ} → Result E (Unit {0}) → Result E B → Result E B
m >> k = m >>= λ _. k

-- `if bad { return e }`.
abbrev pub reject : {E : Type 0} → Bool → E → Result E (Unit {0})
reject true e = err e
reject false e = ok tt

-- An index out of range panics.
abbrev pub or_panic {ℓ} : {E : Type 0} {A : Type ℓ} → Option A → Result E A
or_panic none = panic
or_panic (some a) = ok a

-- An error that the caller drops, `sum, _ := f()`, leaves the value given beside it.
abbrev pub or_value {ℓ} : {E : Type 0} {A : Type ℓ} → A → Result E A → Result E A
or_value d (ok a) = ok a
or_value d (err e) = ok d
or_value d panic = panic

abbrev pub IsErr {ℓ} : {E : Type 0} {A : Type ℓ} → Result E A → Type 0
IsErr (ok a) = ⊥
IsErr (err e) = Unit
IsErr panic = ⊥

abbrev pub IsOk {ℓ} : {E : Type 0} {A : Type ℓ} → Result E A → Type 0
IsOk (ok a) = Unit
IsOk (err e) = ⊥
IsOk panic = ⊥

pub ok-injective {ℓ} :
    {E : Type 0} {A : Type ℓ} {a b : A} → ◌≡◌ {A = Result E A} (ok a) (ok b) → a ≡ b
ok-injective h = cc

pub err-ne-ok {ℓ} :
    {E : Type 0} {A : Type ℓ} {r : Result E A} {e : E} {a : A} → r ≡ err e → r ≡ ok a → ⊥
err-ne-ok h k = cc

pub IsErr-ne-ok {ℓ} : {E : Type 0} {A : Type ℓ} {r : Result E A} {a : A} → IsErr r → r ≡ ok a → ⊥
IsErr-ne-ok {r = ok x} h e = h
IsErr-ne-ok {r = err x} h e = cc
IsErr-ne-ok {r = panic} h e = h
