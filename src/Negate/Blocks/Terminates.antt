-- ===== src/Negate/Blocks/Terminates.antt =====
-- lab08/src/negate.c: the threads of `start_routine_blocks` leave their loops.
use agh_sem4_sysopy.Common.{ℕ, ◌+◌, ◌-◌, ◌*◌, ◌≤◌, ◌≡◌, List, true, length, sum_by}
use agh_sem4_sysopy.Negate.Image.{Image, size}
use agh_sem4_sysopy.Negate.Blocks.{Thread, at_column, at_row, State, run, all_joined}

-- How many turns a thread still takes at most before it leaves its loops.
abbrev turns_left : Image → Thread → ℕ
turns_left image (at_column i) = (image.width - i) * (size image + 2)
turns_left image (at_row i j) = (image.width - (i + 1)) * (size image + 2) + (size image - j) + 1

abbrev all_turns_left : Image → State → ℕ
all_turns_left orig s = sum_by (turns_left orig) s.threads

abbrev pub Finish : Image → ℕ → ℕ → State → Type 0
Finish orig n k s =
    (rest : List ℕ) × (length rest ≤ k) × (all_joined orig n 0 (run n rest s).threads ≡ true)
