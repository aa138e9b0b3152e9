-- ===== src/Shared/Integers.antt =====
-- A counter that goes up and down and may fall below nothing.
use Prim.Native.Nat.{ℕ, zero, suc}
use mathlib.Core.Path.{◌≡◌, refl}

pub data ℤ : Type 0 where
  pos negsuc : ℕ → ℤ

abbrev pub increase : ℤ → ℤ
increase (pos n) = pos (suc n)
increase (negsuc zero) = pos zero
increase (negsuc (suc n)) = negsuc n

abbrev pub decrease : ℤ → ℤ
decrease (pos zero) = negsuc zero
decrease (pos (suc n)) = pos n
decrease (negsuc n) = negsuc (suc n)

abbrev pub difference : ℕ → ℕ → ℤ
difference a zero = pos a
difference zero (suc b) = negsuc b
difference (suc a) (suc b) = difference a b

pub increase-difference : (a b : ℕ) → increase (difference a b) ≡ difference (suc a) b
increase-difference a zero = refl
increase-difference zero (suc zero) = refl
increase-difference zero (suc (suc b)) = refl
increase-difference (suc a) (suc b) = increase-difference a b

pub decrease-difference : (a b : ℕ) → decrease (difference a b) ≡ difference a (suc b)
decrease-difference zero zero = refl
decrease-difference (suc a) zero = refl
decrease-difference zero (suc b) = refl
decrease-difference (suc a) (suc b) = decrease-difference a b
