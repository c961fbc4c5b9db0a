-- ===== src/Negate/Files.antt =====
-- lab08/src/negate.c: `load_image` and `save_image`, over the bytes of a file. MAX_PIXELS of utils.h is
-- a parameter, so that small images can be run.
pub mod Saved
pub mod Cells
pub mod Lines
pub mod Loaded
mod Tests
use agh_sem4_sysopy.Common.{
  ℕ, zero, suc, ◌+◌, ◌-◌, ◌*◌, ◌%◌, Bool, ◌||◌, List, [], ◌∷◌, ◌++◌, ◌==◌, leb, if◌then◌else◌,
  length, get_or, replicate, map,
}
use agh_sem4_sysopy.Common.Int.{ℤ, pos, negsuc}
use agh_sem4_sysopy.Libc.Numbers.{decimal, strtol, to_int}
use agh_sem4_sysopy.Libc.Input.{fgets_line, tokens, line_tokens}
use agh_sem4_sysopy.Negate.Image.{Image, size, cell, to_uchar}

-- `fails` is ERROR_MSG. `outside` is what an `Image` does not hold: a token that is NULL, a cell
-- beyond MAX_PIXELS, a size below zero.
pub data Load : Type 0 where
  loaded : Image → Load
  fails : Load
  outside : Load

-- LINE_LEN and MAX_LINE_LEN, less the terminator.
abbrev pub type_room : ℕ
type_room = 69

abbrev pub line_room : ℕ
line_room = 15359

abbrev pub max_in_line : ℕ
max_in_line = 17

-- " " and " \t\r\n"
abbrev pub is_blank : ℕ → Bool
is_blank c = c == 32

abbrev pub is_separator : ℕ → Bool
is_separator c = c == 32 || (c == 9 || (c == 13 || c == 10))

abbrev pub and_int : ℤ → (ℕ → Load) → Load
and_int (pos n) k = k n
and_int (negsuc n) k = outside

-- The loop over the lines, whose every token is a cell, and the zeros of the static array.
unfoldable pub load_cells : ℕ → List ℕ → List ℕ
load_cells max_pixels file =
    let cells =
      map (λ token. to_uchar (strtol token))
        (line_tokens is_separator line_room (length file) file) in
    cells ++ replicate (max_pixels - length cells) 0

-- The maximum, of the third line, and the cells; each function is given a line and the bytes after it.
unfoldable pub load_pixels : ℕ → List ℕ → ℕ → ℕ → List ℕ → List ℕ → Load
unfolding load_cells
load_pixels max_pixels type width height [] file = fails
load_pixels max_pixels type width height (c ∷ cs) file =
    and_int (to_int (strtol (c ∷ cs))) (λ pixel_max.
      let cells = load_cells max_pixels file in
      if leb (length cells) max_pixels
      then loaded (record {
        type = type;
        cells = cells;
        height = height;
        width = width;
        pixel_max = pixel_max;
      })
      else outside)

-- The width and the height, of the tokens of the second line.
unfoldable pub load_size : ℕ → List ℕ → List (List ℕ) → List ℕ → Load
unfolding fgets_line load_pixels
load_size max_pixels type [] file = outside
load_size max_pixels type (w ∷ []) file = outside
load_size max_pixels type (w ∷ h ∷ more) file = and_int (to_int (strtol w)) (λ width.
    and_int (to_int (strtol h)) (λ height.
      let (line, rest) = fgets_line line_room file in
      load_pixels max_pixels type width height line rest))

unfoldable pub load_second : ℕ → List ℕ → List ℕ → List ℕ → Load
unfolding load_size tokens
load_second max_pixels type [] file = fails
load_second max_pixels type (c ∷ cs) file =
    load_size max_pixels type (tokens is_blank [] (c ∷ cs)) file

unfoldable pub load_first : ℕ → List ℕ → List ℕ → Load
unfolding fgets_line load_second
load_first max_pixels [] file = fails
load_first max_pixels (c ∷ cs) file =
    let (line, rest) = fgets_line line_room file in load_second max_pixels (c ∷ cs) line rest

unfoldable pub load_image : ℕ → List ℕ → Load
unfolding fgets_line load_first
load_image max_pixels file =
    let (line, rest) = fgets_line type_room file in load_first max_pixels line rest

-- "%3hhu "
unfoldable pub print_cell : ℕ → List ℕ
unfolding decimal
print_cell n = replicate (3 - length (decimal (n % 256))) 32 ++ (decimal (n % 256) ++ 32 ∷ [])

-- The loop from `i` on, `n` cells.
unfoldable pub save_cells : ℕ → ℕ → Image → List ℕ
unfolding print_cell
save_cells zero i image = []
save_cells (suc n) i image =
    let rest = save_cells n (i + 1) image in
    print_cell (cell image i) ++ ((if (i + 1) % max_in_line == 0 then 10 ∷ [] else []) ++ rest)

unfoldable pub save_image : Image → List ℕ
unfolding save_cells
save_image image =
    get_or image.type 0 0
    ∷ get_or image.type 1 0
    ∷ 10
    ∷ ((decimal image.width ++ (32 ∷ decimal image.height))
        ++ (10 ∷ (decimal image.pixel_max ++ (10 ∷ save_cells (size image) 0 image))))
