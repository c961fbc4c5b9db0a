-- ===== src/Negate/Files/Tests.antt =====
-- lab08/src/negate.c: files of a small image.
use agh_sem4_sysopy.Common.{ℕ, ◌<◌, ◌≡◌, refl, [], ◌∷◌, arith, length, ltb, if◌then◌else◌}
use agh_sem4_sysopy.Libc.Numbers.{decimal, strtol, to_int}
use agh_sem4_sysopy.Libc.Input.{line_tokens, read_line}
use agh_sem4_sysopy.Libc.Text.{codes}
use agh_sem4_sysopy.Negate.Image.{Image, cell}
use agh_sem4_sysopy.Negate.Files.{loaded, load_image, save_image, save_cells, print_cell}
use agh_sem4_sysopy.Negate.Files.Loaded.{IsSavable, save-load}

abbrev picture : Image
picture = record {
  type = codes "P2\n";
  cells = 0 ∷ 9 ∷ 5 ∷ 10 ∷ 4 ∷ 6 ∷ [];
  height = 2;
  width = 3;
  pixel_max = 10;
}

save_runs : save_image picture ≡ codes "P2\n3 2\n10\n  0   9   5  10   4   6 "
unfolding save_image save_cells print_cell decimal
save_runs = refl

load_runs :
    load_image 6 (codes "P2\n3  2\n10\n0 9\t5\r\n10\n\n")
    ≡ loaded (record picture { cells = 0 ∷ 9 ∷ 5 ∷ 10 ∷ 0 ∷ 0 ∷ [] })
unfolding load_image strtol to_int read_line line_tokens
load_runs = refl

picture-IsSavable : IsSavable 8 picture
picture-IsSavable = record {
  first = 80;
  second = 50;
  typed = refl;
  one_line = (refl, (refl, tt));
  width_int = omega arith;
  height_int = omega arith;
  max_int = omega arith;
  room = omega arith;
  bytes = bytes;
}
  where
    bytes : (i : ℕ) → cell picture i < 256
    bytes i = ground arith

save-load_example :
    (image' : Image) × (load_image 8 (save_image picture) ≡ loaded image')
    × (image'.type ≡ codes "P2\n")
    × (image'.width ≡ 3)
    × (image'.height ≡ 2)
    × (image'.pixel_max ≡ 10)
    × (length image'.cells ≡ 8)
    × ((i : ℕ) → cell image' i ≡ (if ltb i 6 then cell picture i else 0))
save-load_example = save-load 8 picture picture-IsSavable
