-- ===== src/Pipes/Commands/Split.antt =====
-- lab05/src/ex1.c: `appendargs` splits a list of arguments at its bars.
use mathlib.Core.List.{append-nil, append_assoc}
use agh_sem4_sysopy.Common.{
  ℕ, zero, suc, ◌≤◌, ◌≡◌, refl, sym, ap, ◌∙◌, inl, inr, List, [], ◌∷◌, ◌++◌, arith, if◌then◌else◌,
  length, Bool-cases,
}
use agh_sem4_sysopy.Pipes.Commands.{is_bar, until_bar, append_rounds, appendargs}

-- A word before a list of segments belongs to the first.
abbrev pub cons_first : List ℕ → List (List (List ℕ)) → List (List (List ℕ))
cons_first w [] = (w ∷ []) ∷ []
cons_first w (s ∷ ss) = (w ∷ s) ∷ ss

-- The segments between the bars; a bar at the end begins none.
unfoldable pub split : List (List ℕ) → List (List (List ℕ))
split [] = []
split (w ∷ ws) = if is_bar w then [] ∷ split ws else cons_first w (split ws)

-- The rounds of the loop go over a list of words as `split` does.
split-until_bar :
    (w : List ℕ) (ws : List (List ℕ))
    → (split (w ∷ ws) ≡ (until_bar (w ∷ ws)).0 ∷ split (until_bar (w ∷ ws)).1)
      × (length (until_bar (w ∷ ws)).1 ≤ length ws)
unfolding split until_bar
split-until_bar w [] = elim (Bool-cases (is_bar w)) [
  | inl e ↦ rw e (refl, omega arith)
  | inr e ↦ rw e (refl, omega arith)
]
split-until_bar w (v ∷ vs) =
    let ih = split-until_bar v vs in
    elim (Bool-cases (is_bar w)) [
      | inl e ↦ rw e (refl, omega arith)
      | inr e ↦ rw e (ap (cons_first w) ih.0, omega (arith, ih.1))
    ]

append_rounds-split :
    (fuel : ℕ) (command : List (List (List ℕ))) (arg : List (List ℕ))
    → length arg ≤ fuel
    → append_rounds fuel command arg ≡ command ++ split arg
unfolding append_rounds
append_rounds-split zero command [] h = unfold split in sym (append-nil command)
append_rounds-split zero command (w ∷ ws) h = absurd (omega arith)
append_rounds-split (suc fuel) command [] h = unfold split in sym (append-nil command)
append_rounds-split (suc fuel) command (w ∷ ws) h =
    let s = split-until_bar w ws in
    let (segment, rest) = until_bar (w ∷ ws) in
    append_rounds-split fuel (command ++ segment ∷ []) rest (omega (arith, h, s.1))
    ∙ append_assoc command (segment ∷ []) (split rest)
    ∙ ap (λ ss. command ++ ss) (sym s.0)

-- `appendargs` adds the segments between the bars of an alias's words to the pipeline, in order.
pub appendargs-split :
    (command : List (List (List ℕ))) (arg : List (List ℕ))
    → appendargs command arg ≡ command ++ split arg
unfolding appendargs
appendargs-split command arg = append_rounds-split (length arg) command arg (omega arith)
