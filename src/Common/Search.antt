-- ===== src/Common/Search.antt =====
-- The loop `for (i = 0; i < n; i++) if (test(a[i])) …; break;`: the first element that passes a test.
use Prim.Native.Nat.{ℕ, zero, suc, ◌+◌, ◌<◌}
use mathlib.Core.Path.{◌≡◌}
use mathlib.Core.Logic.{inl, inr}
use mathlib.Core.Bool.{Bool, true, false}
use mathlib.Core.Option.{Option, none, some}
use mathlib.Core.List.{List, [], ◌∷◌}
use native.Mathlib.Omega.{arith}
use agh_sem4_sysopy.Common.Tests.{Bool-cases, if◌then◌else◌}
use agh_sem4_sysopy.Common.Lists.{length, get_or}

module _ {ℓ} {A : Type ℓ} (p : A → Bool) where
  -- The index of the first element that passes, counted from `k`.
  unfoldable pub first_index : ℕ → List A → Option ℕ
  first_index k [] = none
  first_index k (x ∷ xs) = if p x then some k else first_index (k + 1) xs

  -- What a search that finds something says of the index.
  pub record Found (d : A) (xs : List A) (i : ℕ) : Type 0 where
    pub in_range : i < length xs
    pub passes : p (get_or xs i d) ≡ true
    pub is_first : (j : ℕ) → j < i → p (get_or xs j d) ≡ false

  shift : (d x : A) (xs : List A) (i : ℕ) → p x ≡ false → Found d xs i → Found d (x ∷ xs) (suc i)
  shift d x xs i e f = record {
    in_range = omega (arith, f.in_range);
    passes = f.passes;
    is_first = λ j h. before j h;
  }
    where
      before : (j : ℕ) → j < suc i → p (get_or (x ∷ xs) j d) ≡ false
      before zero h = e
      before (suc j) h = f.is_first j (omega arith)

  first_index-offset :
      (d : A) (k : ℕ) (xs : List A) (n : ℕ)
      → first_index k xs ≡ some n
      → (i : ℕ) × (n ≡ k + i) × Found d xs i
  unfolding first_index
  first_index-offset d k [] n e = absurd (ground arith)
  first_index-offset d k (x ∷ xs) n e = elim (Bool-cases (p x)) [
    | inl t ↦ (
      0,
      ground arith,
      record { in_range = omega arith; passes = t; is_first = λ j h. absurd (omega arith) },
    )
    | inr t ↦
        let (i, q, f) = first_index-offset d (k + 1) xs n (ground arith) in
        (suc i, omega arith, shift d x xs i t f)
  ]

  pub first_index-some : (d : A) (xs : List A) (n : ℕ) → first_index 0 xs ≡ some n → Found d xs n
  first_index-some d xs n e =
      let (i, q, f) = first_index-offset d 0 xs n e in let q' : n ≡ i = omega arith in rw q' f

  pub first_index-none :
      (d : A) (k : ℕ) (xs : List A)
      → first_index k xs ≡ none
      → (i : ℕ) → i < length xs
      → p (get_or xs i d) ≡ false
  unfolding first_index
  first_index-none d k [] e i h = absurd (omega arith)
  first_index-none d k (x ∷ xs) e zero h = ground arith
  first_index-none d k (x ∷ xs) e (suc i) h =
      first_index-none d (k + 1) xs (ground arith) i (omega arith)
