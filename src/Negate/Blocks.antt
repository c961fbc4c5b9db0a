-- ===== src/Negate/Blocks.antt =====
-- lab08/src/negate.c: `start_routine_blocks`, run by the threads that `negate` starts, whose accesses to
-- the image interleave as a schedule says.
use Prim.Native.Nat.{◌/◌}
use agh_sem4_sysopy.Common.{
  ℕ, zero, suc, ◌+◌, ◌-◌, ◌*◌, List, [], ◌∷◌, Bool, true, false, ◌&&◌, ◌||◌, not, get_or, set, ltb,
  if◌then◌else◌,
}
use agh_sem4_sysopy.Negate.Image.{Image, size, cell, negate_cell}
pub mod Columns
pub mod Negates
pub mod Terminates

-- `(int)ceil((double)image.width / context->threads_no)`
abbrev pub coeff : Image → ℕ → ℕ
coeff image threads_no = (image.width + threads_no - 1) / threads_no

-- Where a thread stands: at the head of the outer loop, or of the inner one.
pub data Thread : Type 0 where
  at_column : (i : ℕ) → Thread
  at_row : (i j : ℕ) → Thread

pub record State : Type 0 where
  pub image : Image
  pub threads : List Thread

abbrev pub thread_at : List Thread → ℕ → Thread
thread_at threads t = get_or threads t (at_column 0)

-- The condition of the outer loop.
abbrev pub in_block : Image → ℕ → ℕ → ℕ → Bool
in_block image threads_no t i = ltb i ((t + 1) * coeff image threads_no) && ltb i image.width

-- The next step of the thread with index `t` of `threads_no`.
unfoldable pub thread_step : ℕ → ℕ → State → Thread → State
thread_step threads_no t s (at_column i) =
    if in_block s.image threads_no t i
    then record s { threads = set s.threads t (at_row i i) }
    else s
thread_step threads_no t s (at_row i j) =
    if ltb j (size s.image)
    then record {
      image = negate_cell s.image j;
      threads = set s.threads t (at_row i (j + s.image.width));
    }
    else record s { threads = set s.threads t (at_column (i + 1)) }

abbrev pub turn : ℕ → ℕ → State → State
turn threads_no t s = thread_step threads_no t s (thread_at s.threads t)

-- `negate`: the threads take turns until all are joined.
unfoldable pub run : ℕ → List ℕ → State → State
run threads_no [] s = s
run threads_no (t ∷ schedule) s = run threads_no schedule (turn threads_no t s)

-- The threads with the indices from `t` on, of which there are `k`.
abbrev pub started : Image → ℕ → ℕ → ℕ → List Thread
started image threads_no t zero = []
started image threads_no t (suc k) =
    at_column (t * coeff image threads_no) ∷ started image threads_no (suc t) k

abbrev pub created : ℕ → Image → State
created threads_no image = record { image = image; threads = started image threads_no 0 threads_no }

-- A thread that has left the outer loop.
abbrev pub is_joined : Image → ℕ → ℕ → Thread → Bool
is_joined image threads_no t (at_column i) = not (in_block image threads_no t i)
is_joined image threads_no t (at_row _ _) = false

abbrev pub all_joined : Image → ℕ → ℕ → List Thread → Bool
all_joined image threads_no t [] = true
all_joined image threads_no t (p ∷ threads) =
    is_joined image threads_no t p && all_joined image threads_no (suc t) threads
