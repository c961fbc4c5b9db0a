-- ===== src/Common/Shift.antt =====
-- Removing an element from a C array: the search for it, and the loop that moves the later ones down.
use Prim.Native.Nat.{ℕ, zero, suc, ◌+◌, ◌-◌, ◌<◌}
use mathlib.Core.Path.{◌≡◌, refl, ap, ◌∙◌}
use mathlib.Core.Logic.{inl, inr}
use mathlib.Core.Bool.{Bool, false}
use mathlib.Core.Option.{none, some}
use mathlib.Core.List.{List, [], ◌∷◌}
use native.Mathlib.Omega.{arith}
use agh_sem4_sysopy.Common.Tests.{Option-cases, if◌then◌else◌}
use agh_sem4_sysopy.Common.Lists.{length, get_or, set, take}
use agh_sem4_sysopy.Common.Search.{first_index, Found, first_index-some, first_index-none}

module _ {ℓ} {A : Type ℓ} (d : A) where
  -- `a[i] = a[i + 1]`, `n` times from `i` on.
  unfoldable pub shift_down : ℕ → ℕ → List A → List A
  shift_down zero i xs = xs
  shift_down (suc n) i xs = shift_down n (i + 1) (set xs i (get_or xs (i + 1) d))

  -- The search, the loop, and the shorter length.
  unfoldable pub remove_first : (A → Bool) → List A → List A
  remove_first p xs = elim (first_index p 0 xs) [
    | none ↦ xs
    | some j ↦ take (length xs - 1) (shift_down (length xs - 1 - j) j xs)
  ]

  shift_down-cons :
      (n i : ℕ) (c : A) (cs : List A) → shift_down n (suc i) (c ∷ cs) ≡ c ∷ shift_down n i cs
  unfolding shift_down
  shift_down-cons zero i c cs = refl
  shift_down-cons (suc n) i c cs =
      let e : ◌≡◌ {A = ℕ} (suc i + 1) (suc (i + 1)) = omega arith in
      rw e (shift_down-cons n (i + 1) c (set cs i (get_or cs (i + 1) d)))

  shift_down-head :
      (c : A) (cs : List A) → take (length cs) (shift_down (length cs) 0 (c ∷ cs)) ≡ cs
  unfolding shift_down
  shift_down-head c [] = refl
  shift_down-head c (x ∷ cs) =
      rw (shift_down-cons (length cs) 0 x (x ∷ cs)) (ap (λ r. x ∷ r) (shift_down-head x cs))

-- The list without its `j`-th element, and without the first that passes a test.
remove_at {ℓ} : {A : Type ℓ} → ℕ → List A → List A
remove_at j [] = []
remove_at zero (c ∷ cs) = cs
remove_at (suc j) (c ∷ cs) = c ∷ remove_at j cs

unfoldable pub without {ℓ} : {A : Type ℓ} → (A → Bool) → List A → List A
without p [] = []
without p (c ∷ cs) = if p c then cs else c ∷ without p cs

module _ {ℓ} {A : Type ℓ} (d : A) where
  shift_down-remove_at :
      (j : ℕ) (cs : List A)
      → j < length cs
      → take (length cs - 1) (shift_down d (length cs - 1 - j) j cs) ≡ remove_at j cs
  unfolding remove_at
  shift_down-remove_at j [] h = absurd (omega arith)
  shift_down-remove_at zero (c ∷ cs) h =
      let e : suc (length cs) - 1 ≡ length cs = omega arith in
      let e' : length cs - 0 ≡ length cs = omega arith in rw (e, e') (shift_down-head d c cs)
  shift_down-remove_at (suc j) (c ∷ []) h = absurd (omega arith)
  shift_down-remove_at (suc j) (c ∷ x ∷ cs) h =
      let e : suc (suc (length cs)) - 1 ≡ suc (suc (length cs) - 1) = omega arith in
      let e' : suc (suc (length cs) - 1) - suc j ≡ suc (length cs) - 1 - j = omega arith in
      rw (e, e', shift_down-cons d (suc (length cs) - 1 - j) j c (x ∷ cs))
        (ap (λ r. c ∷ r) (shift_down-remove_at j (x ∷ cs) (omega arith)))

  without-Found :
      (p : A → Bool) (cs : List A) (j : ℕ) → Found p d cs j → remove_at j cs ≡ without p cs
  unfolding without remove_at
  without-Found p [] j f = absurd (omega (arith, f.in_range))
  without-Found p (c ∷ cs) zero f = ground (arith, f.passes)
  without-Found p (c ∷ cs) (suc j) f = ground (
    arith,
    f.is_first 0,
    without-Found p cs j (record {
      in_range = omega (arith, f.in_range);
      passes = f.passes;
      is_first = λ k h. f.is_first (suc k) (omega arith);
    }),
  )

  without_missing :
      (p : A → Bool) (cs : List A)
      → ((i : ℕ) → i < length cs → p (get_or cs i d) ≡ false)
      → cs ≡ without p cs
  unfolding without
  without_missing p [] h = refl
  without_missing p (c ∷ cs) h =
      ground (arith, h 0, without_missing p cs (λ i lt. h (suc i) (omega arith)))

  pub remove_first-without : (p : A → Bool) (cs : List A) → remove_first d p cs ≡ without p cs
  unfolding remove_first
  remove_first-without p cs = elim (Option-cases (first_index p 0 cs)) [
    | inl e ↦ rw (e, remove_first) (without_missing p cs (first_index-none p d 0 cs e))
    | inr (j, e) ↦
        let f = first_index-some p d cs j e in
        rw (e, remove_first) (shift_down-remove_at j cs f.in_range ∙ without-Found p cs j f)
  ]
