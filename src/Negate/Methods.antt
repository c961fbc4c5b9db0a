-- ===== src/Negate/Methods.antt =====
-- lab08/src/negate.c: the two methods that `main` chooses from.
use agh_sem4_sysopy.Common.{ℕ, ◌<◌, ◌≡◌, sym, ◌∙◌, List, true}
use agh_sem4_sysopy.Negate.Image.{Image, IsGrey, size, cell}
use agh_sem4_sysopy.Negate.Numbers
use agh_sem4_sysopy.Negate.Blocks
use agh_sem4_sysopy.Negate.Numbers.Negates.{numbers-negates}
use agh_sem4_sysopy.Negate.Blocks.Negates.{blocks-negate}

-- `numbers` and `block` leave the same cells, whatever the numbers of threads and the orders of their
-- turns, if in `numbers` every cell is as bright at the second read for `val` as at the first, and if
-- each method has at least one thread, all of them have left their loops, the depth is at most 255 and
-- no cell is brighter than it.
pub methods-agree :
    (orig : Image)
    → IsGrey orig
    → (n m : ℕ) → 0 < n
    → 0 < m
    → (schedule schedule' : List ℕ)
    → let s = Numbers.run n schedule (Numbers.created n orig) in
      let s' = Blocks.run m schedule' (Blocks.created m orig) in
      Numbers.AllSteady n schedule (Numbers.created n orig)
      → Numbers.all_joined (size s.image) s.threads ≡ true
      → Blocks.all_joined orig m 0 s'.threads ≡ true
      → (j : ℕ) → cell s.image j ≡ cell s'.image j
methods-agree orig grey n m h h' schedule schedule' steady all all' j =
    numbers-negates orig grey n h schedule steady all j
    ∙ sym (blocks-negate orig grey m h' schedule' all' j)
