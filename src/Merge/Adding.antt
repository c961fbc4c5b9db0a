-- ===== src/Merge/Adding.antt =====
-- lab01/src/lib/src/lib_merge.c: `add_blocks` on an array of `create_array`.
use native.Mathlib.Decide.{ℕ_discrete}
use agh_sem4_sysopy.Common.{
  ℕ, zero, suc, ◌+◌, ◌≤◌, ◌<◌, ◌≡◌, ◌≢◌, refl, ap, ◌∙◌, List, [], ◌∷◌, arith, none, some, length,
  length-set, length-replicate, set,
}
use agh_sem4_sysopy.Merge.Blocks.{Block, read_block, lookup, create_array, add_from, add_blocks}

lookup-set_self {ℓ} :
    {A : Type ℓ} (xs : List A) (i : ℕ) (v a : A)
    → lookup xs i ≡ some a
    → lookup (set xs i v) i ≡ some v
unfolding lookup
lookup-set_self [] i v a e = absurd (ground arith)
lookup-set_self (x ∷ xs) zero v a e = refl
lookup-set_self (x ∷ xs) (suc i) v a e = lookup-set_self xs i v a e

lookup-set_ne {ℓ} :
    {A : Type ℓ} (xs : List A) (i j : ℕ) (v : A) → i ≢ j → lookup (set xs i v) j ≡ lookup xs j
unfolding lookup
lookup-set_ne [] i j v n = refl
lookup-set_ne (x ∷ xs) zero zero v n = absurd (n refl)
lookup-set_ne (x ∷ xs) zero (suc j) v n = refl
lookup-set_ne (x ∷ xs) (suc i) zero v n = refl
lookup-set_ne (x ∷ xs) (suc i) (suc j) v n = lookup-set_ne xs i j v (λ e. n (ap suc e))

lookup-lt {ℓ} :
    {A : Type ℓ} (xs : List A) (i : ℕ) → i < length xs → (a : A) × (lookup xs i ≡ some a)
unfolding lookup
lookup-lt [] i h = elim h [ ]
lookup-lt (x ∷ xs) zero h = (x, refl)
lookup-lt (x ∷ xs) (suc i) h = lookup-lt xs i (omega arith)

module _ (files : ℕ → List ℕ) where
  -- The loop has read the files from `i` on, `k` of them, and left the blocks before.
  record Added (i k : ℕ) (blocks : List Block) : Type 0 where
    out : List Block
    ends : add_from files i k blocks ≡ some out
    before : (j : ℕ) → j < i → lookup out j ≡ lookup blocks j
    added : (j : ℕ) → i ≤ j → j < i + k → lookup out j ≡ some (read_block (files j))

  add_from-step :
      (k i : ℕ) (blocks out : List Block) (old : Block)
      → lookup blocks i ≡ some old
      → add_from files (suc i) k (set blocks i (read_block (files i))) ≡ some out
      → add_from files i (suc k) blocks ≡ some out
  unfolding add_from
  add_from-step k i blocks out old e r = rw (add_from, e) r

  add_from-lem : (k i : ℕ) (blocks : List Block) → i + k ≤ length blocks → Added i k blocks
  unfolding add_from
  add_from-lem zero i blocks h = record {
    out = blocks;
    ends = refl;
    before = λ j l. refl;
    added = λ j l m. absurd (omega arith);
  }
  add_from-lem (suc k) i blocks h =
      let block = read_block (files i) in
      let old = lookup-lt blocks i (omega arith) in
      let r =
        add_from-lem k (suc i) (set blocks i block) (omega (arith, length-set blocks i block)) in
      record {
        out = r.out;
        ends = add_from-step k i blocks r.out old.0 old.1 r.ends;
        before = λ j l.
            r.before j (omega arith) ∙ lookup-set_ne blocks i j block (λ e. omega (arith, e));
        added = λ j l m. elim (ℕ_discrete i j) [
          | yes e ↦ r.before j (omega arith) ∙ rw (← e) (lookup-set_self blocks i block old.0 old.1)
          | no n ↦ r.added j (omega arith) (omega arith)
        ];
      }

-- `add_blocks` fills an array that `create_array` has made for as many files: block j is read from file j.
pub add_blocks-reads :
    (files : ℕ → List ℕ) (n j : ℕ)
    → j < n
    → (out : List Block) × (add_blocks files n (create_array n) ≡ some out)
      × (lookup out j ≡ some (read_block (files j)))
add_blocks-reads files n j h =
    let cleared : Block = record { rows = none; size = 0; current_size = 0 } in
    let r = add_from-lem files n 0 (create_array n) (omega (arith, length-replicate n cleared)) in
    (r.out, r.ends, r.added j (omega arith) (omega arith))
