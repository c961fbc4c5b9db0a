-- ===== src/Negate/Files/Cells.antt =====
-- lab08/src/negate.c: the cells that `load_image` reads from those that `save_image` prints.
use agh_sem4_sysopy.Common.{
  ℕ, zero, suc, ◌+◌, ◌-◌, ◌%◌, ◌^◌, ◌≤◌, ◌<◌, ◌≡◌, refl, sym, ap, ◌∙◌, List, [], ◌∷◌, ◌++◌, arith,
  ltb, ltb→lt, Bool-cases, inl, inr, if◌then◌else◌, length, get_or, replicate, map,
}
use mathlib.Core.List.{append-nil}
use agh_sem4_sysopy.Common.Int.{pos}
use agh_sem4_sysopy.Libc.Numbers.{
  decimal, strtol, to_int, strtol-decimal, print_int, strtol-print_int, StopsDigits,
}
use agh_sem4_sysopy.Libc.Input.{line_tokens-tokens}
use agh_sem4_sysopy.Negate.Image.{Image, size, cell, to_uchar}
use agh_sem4_sysopy.Negate.Files.{line_room, is_separator, load_cells, save_cells}
use agh_sem4_sysopy.Negate.Files.Saved.{cell_words, tokens-save_cells, lines_fit-save_cells}

-- The cells from `i` on, as a list.
unfoldable pub cells_from : ℕ → ℕ → Image → List ℕ
cells_from zero i image = []
cells_from (suc n) i image = cell image i ∷ cells_from n (i + 1) image

pub length-cells_from : (n i : ℕ) (image : Image) → length (cells_from n i image) ≡ n
unfolding cells_from
length-cells_from zero i image = refl
length-cells_from (suc n) i image = ap suc (length-cells_from n (i + 1) image)

get_or-cells_from :
    (n i j : ℕ) (image : Image) (more : List ℕ)
    → j < n
    → get_or (cells_from n i image ++ more) j 0 ≡ cell image (i + j)
unfolding cells_from
get_or-cells_from zero i j image more h = elim h [ ]
get_or-cells_from (suc n) i zero image more h = ap (cell image) (omega arith)
get_or-cells_from (suc n) i (suc j) image more h =
    get_or-cells_from n (i + 1) j image more (omega arith) ∙ ap (cell image) (omega arith)

get_or-zeros : (k j : ℕ) → get_or (replicate {A = ℕ} k 0) j 0 ≡ 0
get_or-zeros zero j = refl
get_or-zeros (suc k) zero = refl
get_or-zeros (suc k) (suc j) = get_or-zeros k j

get_or-beyond :
    (n i j k : ℕ) (image : Image) → n ≤ j → get_or (cells_from n i image ++ replicate k 0) j 0 ≡ 0
unfolding cells_from
get_or-beyond zero i j k image h = get_or-zeros k j
get_or-beyond (suc n) i zero k image h = absurd (omega arith)
get_or-beyond (suc n) i (suc j) k image h = get_or-beyond n (i + 1) j k image (omega arith)

-- The cells of an image, and the zeros after them.
pub cell-reloaded :
    (n k i : ℕ) (image : Image)
    → get_or (cells_from n 0 image ++ replicate k 0) i 0 ≡ (if ltb i n then cell image i else 0)
cell-reloaded n k i image = elim (Bool-cases (ltb i n)) [
  | inl e ↦
      rw e (
        get_or-cells_from n 0 i image (replicate k 0) (ltb→lt i n e)
        ∙ ap (cell image) (omega arith))
  | inr e ↦ rw e (get_or-beyond n 0 i k image (ground arith))
]

-- `%d` and `strtol`, without and with the newline that follows.
pub reads :
    (n : ℕ) (rest : List ℕ)
    → n < 2 ^ 31
    → StopsDigits rest
    → to_int (strtol (decimal n ++ rest)) ≡ pos n
unfolding print_int
reads n rest h s = strtol-print_int (pos n) rest h s

words-cells :
    (n i : ℕ) (image : Image)
    → ((i : ℕ) → cell image i < 256)
    → map (λ token. to_uchar (strtol token)) (cell_words n i image) ≡ cells_from n i image
unfolding cell_words cells_from
words-cells zero i image h = refl
words-cells (suc n) i image h =
    let e : cell image i % 256 ≡ cell image i = omega (arith, h i) in
    let t : strtol (decimal (cell image i)) ≡ pos (cell image i) =
      ap strtol (sym (append-nil (decimal (cell image i))))
      ∙ strtol-decimal (cell image i) [] (omega (arith, h i)) tt in
    rw (e, t, e, words-cells n (i + 1) image h)

-- The cells of a saved image, as they are loaded.
pub load-save_cells :
    (max_pixels : ℕ) (image : Image)
    → ((i : ℕ) → cell image i < 256)
    → load_cells max_pixels (save_cells (size image) 0 image)
      ≡ cells_from (size image) 0 image ++ replicate (max_pixels - size image) 0
unfolding load_cells
load-save_cells max_pixels image h =
    let n = size image in
    let file = save_cells n 0 image in
    let e =
      line_tokens-tokens is_separator 15358 (length file) file (omega arith)
        (lines_fit-save_cells n 0 line_room image (omega arith)) refl
      ∙ tokens-save_cells n 0 image in
    rw (e, words-cells n 0 image h, length-cells_from n 0 image)
