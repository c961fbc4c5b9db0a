-- ===== src/Negate/Image.antt =====
-- lab08/src: `struct image` of utils.h and the arithmetic that negate.c does on a cell.
-- An `unsigned char` is a number below 256, an `int` that may be negative an integer.
use agh_sem4_sysopy.Common.{
  Bool, ℕ, suc, ◌-◌, ◌*◌, ◌%◌, ◌≤◌, ◌≡◌, List, arith, get_or, set, length, ltb, if◌then◌else◌,
}
use agh_sem4_sysopy.Common.Int.{ℤ, pos, negsuc, sub_ℕ}
use Prim.Native.Nat.{◌/◌}

pub record Image : Type 0 where
  pub type : List ℕ
  pub cells : List ℕ
  pub height : ℕ
  pub width : ℕ
  pub pixel_max : ℕ

abbrev pub size : Image → ℕ
size image = image.width * image.height

-- An `int` stored in an `unsigned char`.
abbrev pub to_uchar : ℤ → ℕ
to_uchar (pos n) = n % 256
to_uchar (negsuc n) = 255 - n % 256

-- `image.pixel_max - image.cells[i]`, as it is stored
unfoldable pub negated : ℕ → ℕ → ℕ
negated pixel_max cell = to_uchar (sub_ℕ pixel_max cell)

-- `val` of `start_routine_numbers`, of a cell that the test found bright or not.
unfoldable pub val_from : Bool → ℕ → ℕ → ℤ
val_from bright pixel_max cell = if bright then sub_ℕ pixel_max cell else pos cell

-- `val` of a cell that does not change.
unfoldable pub val_of : ℕ → ℕ → ℤ
unfolding val_from
val_of pixel_max cell = val_from (ltb (pixel_max / 2) cell) pixel_max cell

-- `image.cells[i]`
abbrev pub cell : Image → ℕ → ℕ
cell image i = get_or image.cells i 0

-- `image.cells[i] = image.pixel_max - image.cells[i]`
abbrev pub negate_cell : Image → ℕ → Image
negate_cell image i = record image {
  cells = set image.cells i (negated image.pixel_max (cell image i));
}

-- An image as it is loaded from a file of at most 8 bits a pixel.
pub record IsGrey (image : Image) : Type 0 where
  pub depth : image.pixel_max ≤ 255
  pub range : (i : ℕ) → cell image i ≤ image.pixel_max
  pub room : size image ≤ length image.cells

-- C's `%`, whose result has the sign of its left operand.
abbrev pub rem : ℤ → ℕ → ℤ
rem (pos n) k = pos (n % k)
rem (negsuc n) k = sub_ℕ 0 (suc n % k)

pub negated-le :
    (pixel_max cell : ℕ)
    → cell ≤ pixel_max
    → pixel_max ≤ 255
    → negated pixel_max cell ≡ pixel_max - cell
unfolding negated
negated-le m c h k = ground arith

-- Complementary cells have the same `val`.
pub val_of-negated :
    (pixel_max cell : ℕ)
    → cell ≤ pixel_max
    → pixel_max ≤ 255
    → val_of pixel_max (negated pixel_max cell) ≡ val_of pixel_max cell
unfolding val_of
val_of-negated m c h k = ground (arith, negated-le m c h k)
