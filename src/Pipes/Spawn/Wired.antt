-- ===== src/Pipes/Spawn/Wired.antt =====
-- lab05/src/ex1.c: how the processes of a pipeline are joined, and that no end of a pipe stays open
-- elsewhere.
use mathlib.Core.List.{append_assoc}
use agh_sem4_sysopy.Common.{
  ℕ, zero, suc, ◌+◌, ◌-◌, ◌<◌, ◌≡◌, refl, ap, ◌∙◌, true, false, List, [], ◌∷◌, ◌++◌, arith, ◌==◌,
  ==_refl, ltb, if◌then◌else◌,
}
use agh_sem4_sysopy.Pipes.Spawn.{
  End, reads, writes, terminal, end_of, Process, close, close_both, Parent, make_pipe, child,
  parent_round, round, rounds, start,
}

-- The process of round `i` of a pipeline: its input is the pipe of the round before, its output that
-- of its own, but for the first and the last, and it has no other descriptor.
abbrev pub wired : ℕ → ℕ → Process
wired command_size i = record {
  stdin = if ltb 0 i then end_of (reads (i - 1)) else terminal;
  stdout = if ltb (i + 1) command_size then end_of (writes i) else terminal;
  open_ends = [];
}

unfoldable pub all_wired : ℕ → ℕ → ℕ → List Process
all_wired command_size zero i = []
all_wired command_size (suc n) i = wired command_size i ∷ all_wired command_size n (i + 1)

close_own : (i : ℕ) → close_both (reads i, writes i) (reads i ∷ writes i ∷ []) ≡ []
unfolding close
close_own i = rw (==_refl i, ==_refl i) refl

close_old :
    (i : ℕ)
    → close_both (reads i, writes i) (reads (i + 1) ∷ writes (i + 1) ∷ reads i ∷ writes i ∷ [])
      ≡ reads (i + 1) ∷ writes (i + 1) ∷ []
unfolding close
close_old i = let n : (i + 1 == i) ≡ false = ground arith in rw (n, ==_refl i, n, ==_refl i) refl

-- The parent between two rounds: it has the pipe of the last one open, and no other.
abbrev between : ℕ → End × End → List Process → Parent
between i new_fd children = record {
  old_fd = (reads i, writes i);
  new_fd = new_fd;
  open_ends = reads i ∷ writes i ∷ [];
  children = children;
}

round-between :
    (command_size i : ℕ) (new_fd : End × End) (children : List Process)
    → i + 2 < command_size
    → round command_size (i + 1) (between i new_fd children)
      ≡ between
          (i + 1)
          (reads (i + 1), writes (i + 1))
          (children ++ wired command_size (i + 1) ∷ [])
unfolding round make_pipe child parent_round
round-between command_size i new_fd children h =
    let m : ltb (i + 1) (command_size - 1) ≡ true = ground arith in
    let z : ltb 0 (i + 1) ≡ true = ground arith in
    let t : ltb (i + 1 + 1) command_size ≡ true = ground arith in
    let j : i + 1 - 1 ≡ i = omega arith in rw (m, z, t, j, close_old i, close_own (i + 1)) refl

round-last :
    (command_size i : ℕ) (new_fd : End × End) (children : List Process)
    → i + 2 ≡ command_size
    → let q = round command_size (i + 1) (between i new_fd children) in
      (q.open_ends ≡ []) × (q.children ≡ children ++ wired command_size (i + 1) ∷ [])
unfolding round make_pipe child parent_round
round-last command_size i new_fd children h =
    let m : ltb (i + 1) (command_size - 1) ≡ false = ground arith in
    let z : ltb 0 (i + 1) ≡ true = ground arith in
    let t : ltb (i + 1 + 1) command_size ≡ false = ground arith in
    let j : i + 1 - 1 ≡ i = omega arith in rw (m, z, t, j, close_own i) (refl, refl)

fresh : End × End → End × End → Parent
fresh old_fd new_fd = record { old_fd = old_fd; new_fd = new_fd; open_ends = []; children = [] }

round-first :
    (command_size : ℕ) (old_fd new_fd : End × End)
    → 1 < command_size
    → round command_size 0 (fresh old_fd new_fd)
      ≡ between 0 (reads 0, writes 0) (wired command_size 0 ∷ [])
unfolding round make_pipe child parent_round fresh
round-first command_size old_fd new_fd h =
    let m : ltb 0 (command_size - 1) ≡ true = ground arith in
    let t : ltb (0 + 1) command_size ≡ true = ground arith in rw (m, t, close_own 0) refl

-- The rounds after the first.
rounds-wired :
    (command_size n i : ℕ) (new_fd : End × End) (children : List Process)
    → i + 2 + n ≡ command_size
    → let q = rounds command_size (suc n) (i + 1) (between i new_fd children) in
      (q.open_ends ≡ []) × (q.children ≡ children ++ all_wired command_size (suc n) (i + 1))
unfolding rounds all_wired
rounds-wired command_size zero i new_fd children h =
    round-last command_size i new_fd children (omega (arith, h))
rounds-wired command_size (suc n) i new_fd children h =
    let c = children ++ wired command_size (i + 1) ∷ [] in
    let ih =
      rounds-wired command_size n (i + 1) (reads (i + 1), writes (i + 1)) c (omega (arith, h)) in
    let e = round-between command_size i new_fd children (omega (arith, h)) in
    (
      ap (λ r. (rounds command_size (suc n) (i + 1 + 1) r).open_ends) e ∙ ih.0,
      ap (λ r. (rounds command_size (suc n) (i + 1 + 1) r).children) e
          ∙ ih.1
          ∙ append_assoc children (wired command_size (i + 1) ∷ []) _,
    )

-- A pipeline of any number of commands: there is one process for each, in order, whose input is the
-- pipe of the process before it and whose output is its own pipe, the first and the last at the
-- terminal; neither they nor the parent keep any other end of a pipe open.
pub start-wired :
    (old_fd new_fd : End × End) (command_size : ℕ)
    → let p = start old_fd new_fd command_size in
      (p.children ≡ all_wired command_size command_size 0) × (p.open_ends ≡ [])
unfolding start rounds all_wired fresh
start-wired old_fd new_fd zero = (refl, refl)
start-wired old_fd new_fd (suc zero) = (refl, refl)
start-wired old_fd new_fd (suc (suc n)) =
    let size = suc (suc n) in
    let q = rounds-wired size n 0 (reads 0, writes 0) (wired size 0 ∷ []) (omega arith) in
    let e = round-first size old_fd new_fd (omega arith) in
    (
      ap (λ r. (rounds size (suc n) (0 + 1) r).children) e ∙ q.1,
      ap (λ r. (rounds size (suc n) (0 + 1) r).open_ends) e ∙ q.0,
    )
