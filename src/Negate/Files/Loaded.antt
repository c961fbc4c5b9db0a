-- ===== src/Negate/Files/Loaded.antt =====
-- lab08/src/negate.c: an image that `save_image` wrote, read by `load_image`.
use agh_sem4_sysopy.Common.{
  ℕ, ◌-◌, ◌^◌, ◌≤◌, ◌<◌, ◌≡◌, refl, sym, ap, ◌∙◌, List, [], ◌∷◌, ◌++◌, arith, ltb, if◌then◌else◌,
  length, length-append, length-replicate, get_or, replicate,
}
use agh_sem4_sysopy.Common.Int.{pos}
use agh_sem4_sysopy.Libc.Numbers.{decimal, strtol, to_int}
use agh_sem4_sysopy.Libc.Input.{fgets_line_lem, NoNewline}
use agh_sem4_sysopy.Negate.Image.{Image, size, cell}
use agh_sem4_sysopy.Negate.Files.{
  loaded, type_room, load_pixels, load_second, load_first, load_image, save_cells, save_image,
}
use agh_sem4_sysopy.Negate.Files.Cells.{
  cells_from, length-cells_from, load-save_cells, cell-reloaded,
}
use agh_sem4_sysopy.Negate.Files.Lines.{
  decimal-line, load_pixels-saved, load_size-saved, second-line, load_second-saved,
}

-- An image that a file can hold: two characters for its type, sizes of an `int`, cells of a byte.
pub record IsSavable (max_pixels : ℕ) (image : Image) : Type 0 where
  pub first : ℕ
  pub second : ℕ
  pub typed : image.type ≡ first ∷ second ∷ 10 ∷ []
  pub one_line : NoNewline (first ∷ second ∷ [])
  pub width_int : image.width < 2 ^ 31
  pub height_int : image.height < 2 ^ 31
  pub max_int : image.pixel_max < 2 ^ 31
  pub room : size image ≤ max_pixels
  pub bytes : (i : ℕ) → cell image i < 256

-- The image that is loaded from the file of a saved one.
abbrev pub reloaded : ℕ → Image → Image
reloaded max_pixels image = record image {
  cells = cells_from (size image) 0 image ++ replicate (max_pixels - size image) 0;
}

pub length-reloaded :
    (max_pixels : ℕ) (image : Image)
    → size image ≤ max_pixels
    → length (reloaded max_pixels image).cells ≡ max_pixels
length-reloaded max_pixels image h = omega (
  arith,
  length-append (cells_from (size image) 0 image) (replicate (max_pixels - size image) 0),
  length-cells_from (size image) 0 image,
  length-replicate {A = ℕ} (max_pixels - size image) 0,
)

module _ (max_pixels : ℕ) (image : Image) where
  load_pixels-save :
      (d : ℕ) (ds : List ℕ)
      → IsSavable max_pixels image
      → to_int (strtol (d ∷ ds)) ≡ pos image.pixel_max
      → load_pixels max_pixels image.type image.width image.height
          (d ∷ ds)
          (save_cells (size image) 0 image)
        ≡ loaded (reloaded max_pixels image)
  load_pixels-save d ds s r =
      let file = save_cells (size image) 0 image in
      let e = load-save_cells max_pixels image s.bytes in
      load_pixels-saved max_pixels image.type image.width image.height image.pixel_max d ds file r
        (omega (arith, ap length e, length-reloaded max_pixels image s.room))
      ∙ ap (λ cs. loaded (record image { cells = cs })) e

  -- The lines after the first.
  load_second-save :
      IsSavable max_pixels image
      → let second = decimal image.width ++ 32 ∷ decimal image.height in
        load_second max_pixels image.type
          (second ++ 10 ∷ [])
          (decimal image.pixel_max ++ 10 ∷ save_cells (size image) 0 image)
        ≡ loaded (reloaded max_pixels image)
  load_second-save s =
      let file = save_cells (size image) 0 image in
      let (d, ds, e, r) = decimal-line image.pixel_max file s.max_int in
      load_second-saved max_pixels image.type image.width image.height
        (decimal image.pixel_max ++ 10 ∷ file)
      ∙ load_size-saved max_pixels image.type image.width image.height (d ∷ ds) file
          (decimal image.pixel_max ++ 10 ∷ file) s.width_int s.height_int e
      ∙ load_pixels-save d ds s r

  pub load_image-save_image :
      IsSavable max_pixels image
      → load_image max_pixels (save_image image) ≡ loaded (reloaded max_pixels image)
  unfolding load_image load_first save_image
  load_image-save_image s =
      let sizes = decimal image.width ++ 32 ∷ decimal image.height in
      let file = decimal image.pixel_max ++ 10 ∷ save_cells (size image) 0 image in
      let type = s.first ∷ s.second ∷ 10 ∷ [] in
      ap (λ t. load_image max_pixels (get_or t 0 0 ∷ get_or t 1 0 ∷ 10 ∷ sizes ++ 10 ∷ file))
        s.typed
      ∙ ap (λ p. load_first max_pixels p.0 p.1)
          (fgets_line_lem type_room (s.first ∷ s.second ∷ []) (sizes ++ 10 ∷ file) s.one_line
            (omega arith))
      ∙ ap (λ p. load_second max_pixels type p.0 p.1)
          (second-line image.width image.height file s.width_int s.height_int)
      ∙ ap (λ t. load_second max_pixels t (sizes ++ 10 ∷ []) file) (sym s.typed)
      ∙ load_second-save s

  -- An image that a file can hold, saved and loaded again: the type, the sizes and the maximum are the
  -- same, and so is every cell of the image; the other cells of the array are 0.
  pub save-load :
      IsSavable max_pixels image
      → (image' : Image) × (load_image max_pixels (save_image image) ≡ loaded image')
        × (image'.type ≡ image.type)
        × (image'.width ≡ image.width)
        × (image'.height ≡ image.height)
        × (image'.pixel_max ≡ image.pixel_max)
        × (length image'.cells ≡ max_pixels)
        × ((i : ℕ) → cell image' i ≡ (if ltb i (size image) then cell image i else 0))
  save-load s = (
    reloaded max_pixels image,
    load_image-save_image s,
    refl,
    refl,
    refl,
    refl,
    length-reloaded max_pixels image s.room,
    λ i. cell-reloaded (size image) (max_pixels - size image) i image,
  )
