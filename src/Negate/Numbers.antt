-- ===== src/Negate/Numbers.antt =====
-- lab08/src/negate.c: `start_routine_numbers`, run by the threads that `negate` starts, whose accesses to
-- the image interleave as a schedule says. A cell is read for the test of `val` and again for its
-- value; the read and the write that negate a cell are one access.
pub mod Owner
pub mod Negates
pub mod Terminates
use Prim.Native.Nat.{◌/◌}
use agh_sem4_sysopy.Common.{
  Bool, true, false, ◌&&◌, leb, ℕ, suc, ◌+◌, ◌*◌, ◌≤◌, ◌<◌, ◌≡◌, List, [], ◌∷◌, arith, length,
  get_or, set, replicate, ltb, if◌then◌else◌,
}
use agh_sem4_sysopy.Common.Int.{ℤ, pos, eqb_ℤ}
use agh_sem4_sysopy.Negate.Image.{Image, size, cell, negate_cell, negated, val_from, rem}

-- Where a thread stands: at the loop's head, between the two reads for `val`, of which the first found
-- the cell bright or not, or at the test of `val`.
pub data Thread : Type 0 where
  at_cell : (i : ℕ) → Thread
  has_test : (i : ℕ) (bright : Bool) → Thread
  has_val : (i : ℕ) (val : ℤ) → Thread

pub record State : Type 0 where
  pub image : Image
  pub threads : List Thread

abbrev pub thread_at : List Thread → ℕ → Thread
thread_at threads t = get_or threads t (at_cell 0)

-- `image.cells[i] > image.pixel_max/2`
abbrev pub is_bright : Image → ℕ → Bool
is_bright image i = ltb (image.pixel_max / 2) (cell image i)

-- The next step of the thread with index `t` of `threads_no`.
unfoldable pub thread_step : ℕ → ℕ → State → Thread → State
thread_step threads_no t s (at_cell i) =
    if ltb i (size s.image)
    then record s { threads = set s.threads t (has_test i (is_bright s.image i)) }
    else s
thread_step threads_no t s (has_test i bright) = record s {
  threads = set s.threads t (has_val i (val_from bright s.image.pixel_max (cell s.image i)));
}
thread_step threads_no t s (has_val i val) = record {
  image = if eqb_ℤ (rem val threads_no) (pos t) then negate_cell s.image i else s.image;
  threads = set s.threads t (at_cell (i + 1));
}

abbrev pub turn : ℕ → ℕ → State → State
turn threads_no t s = thread_step threads_no t s (thread_at s.threads t)

-- `negate`: the threads take turns until all are joined.
unfoldable pub run : ℕ → List ℕ → State → State
run threads_no [] s = s
run threads_no (t ∷ schedule) s = run threads_no schedule (turn threads_no t s)

abbrev pub created : ℕ → Image → State
created threads_no image = record { image = image; threads = replicate threads_no (at_cell 0) }

-- A thread that has left the loop.
abbrev pub is_joined : ℕ → Thread → Bool
is_joined cells (at_cell i) = leb cells i
is_joined cells (has_test _ _) = false
is_joined cells (has_val _ _) = false

abbrev pub all_joined : ℕ → List Thread → Bool
all_joined cells [] = true
all_joined cells (p ∷ threads) = is_joined cells p && all_joined cells threads

-- Whenever a thread reads a cell the second time, it is as bright as the first time: no other thread has
-- turned it in between.
abbrev pub IsSteady : Image → Thread → Type 0
IsSteady image (at_cell i) = Unit
IsSteady image (has_test i bright) = is_bright image i ≡ bright
IsSteady image (has_val i val) = Unit

unfoldable pub AllSteady : ℕ → List ℕ → State → Type 0
unfolding thread_step
AllSteady threads_no [] s = Unit
AllSteady threads_no (t ∷ schedule) s =
    IsSteady s.image (thread_at s.threads t) × AllSteady threads_no schedule (turn threads_no t s)
