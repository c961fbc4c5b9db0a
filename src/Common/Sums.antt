-- ===== src/Common/Sums.antt =====
-- Sums of a weight over a list, such as the number of threads in a section of code.
use Prim.Native.Nat.{ℕ, zero, suc, ◌+◌, ◌≤◌, ◌<◌}
use mathlib.Core.Path.{◌≡◌, refl}
use mathlib.Core.Logic.{◌≢◌}
use mathlib.Core.List.{List, [], ◌∷◌}
use native.Mathlib.Omega.{arith}
use agh_sem4_sysopy.Common.Lists.{length, get_or, set}

module _ {ℓ} {A : Type ℓ} (w : A → ℕ) where
  unfoldable pub sum_by : List A → ℕ
  sum_by [] = 0
  sum_by (x ∷ xs) = w x + sum_by xs

  pub sum_by-set :
      (xs : List A) (i : ℕ) (a d : A)
      → i < length xs
      → sum_by (set xs i a) + w (get_or xs i d) ≡ sum_by xs + w a
  unfolding sum_by
  sum_by-set [] i a d h = elim h [ ]
  sum_by-set (x ∷ xs) zero a d h = omega arith
  sum_by-set (x ∷ xs) (suc i) a d h = omega (arith, sum_by-set xs i a d (omega arith))

  -- One element's weight is a part of the sum, and so is that of two different ones.
  pub le-sum_by : (xs : List A) (i : ℕ) (d : A) → i < length xs → w (get_or xs i d) ≤ sum_by xs
  unfolding sum_by
  le-sum_by [] i d h = elim h [ ]
  le-sum_by (x ∷ xs) zero d h = omega arith
  le-sum_by (x ∷ xs) (suc i) d h = omega (arith, le-sum_by xs i d (omega arith))

  pub add-le-sum_by :
      (xs : List A) (i j : ℕ) (d : A)
      → i < length xs
      → j < length xs
      → i ≢ j
      → w (get_or xs i d) + w (get_or xs j d) ≤ sum_by xs
  unfolding sum_by
  add-le-sum_by [] i j d h k n = elim h [ ]
  add-le-sum_by (x ∷ xs) zero zero d h k n = absurd (n refl)
  add-le-sum_by (x ∷ xs) zero (suc j) d h k n = omega (arith, le-sum_by xs j d (omega arith))
  add-le-sum_by (x ∷ xs) (suc i) zero d h k n = omega (arith, le-sum_by xs i d (omega arith))
  add-le-sum_by (x ∷ xs) (suc i) (suc j) d h k n =
      omega (arith, add-le-sum_by xs i j d (omega arith) (omega arith) (λ e. n (omega arith)))
