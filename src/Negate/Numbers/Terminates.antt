-- ===== src/Negate/Numbers/Terminates.antt =====
-- lab08/src/negate.c: the threads of `start_routine_numbers` leave their loops.
use agh_sem4_sysopy.Common.{ℕ, ◌-◌, sum_by, ◌*◌}
use agh_sem4_sysopy.Negate.Image.{Image, size}
use agh_sem4_sysopy.Negate.Numbers.{Thread, at_cell, has_test, has_val, State}

-- How many turns a thread still takes before it leaves the loop.
abbrev turns_left : ℕ → Thread → ℕ
turns_left cells (at_cell i) = 3 * (cells - i)
turns_left cells (has_test i _) = 3 * (cells - i) - 1
turns_left cells (has_val i _) = 3 * (cells - i) - 2

abbrev pub all_turns_left : State → ℕ
all_turns_left s = sum_by (turns_left (size s.image)) s.threads
