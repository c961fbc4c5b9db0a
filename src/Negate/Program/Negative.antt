-- ===== src/Negate/Program/Negative.antt =====
-- lab08/src/negate.c: a run of the whole program, from file to file.
use agh_sem4_sysopy.Common.{
  ℕ, ◌-◌, ◌≤◌, ◌<◌, ◌≡◌, refl, ap, ◌∙◌, Option, some, List, [], ◌∷◌, arith, length, ltb,
  if◌then◌else◌,
}
use agh_sem4_sysopy.Common.Int.{pos}
use agh_sem4_sysopy.Libc.Numbers.{strtol, to_int}
use agh_sem4_sysopy.Negate.Image.{Image, IsGrey, size, cell}
use agh_sem4_sysopy.Negate.Files.{loaded, load_image, save_image}
use agh_sem4_sysopy.Negate.Files.Loaded.{
  IsSavable, reloaded, length-reloaded, load_image-save_image,
}
use agh_sem4_sysopy.Negate.Files.Cells.{cell-reloaded}
use agh_sem4_sysopy.Negate.Program.{
  Method, writes, method_of, negate, negate_and_save, with_option, main, AllJoined, AllSteady,
}
use agh_sem4_sysopy.Negate.Program.Frame.{SameFrame, same_size, then_same, Negates, negate-Negates}

-- A cell that is no brighter than the maximum stays so.
negative-le :
    (orig image : Image)
    → IsGrey orig
    → Negates orig image
    → (j : ℕ) → cell image j ≤ orig.pixel_max
negative-le orig image g n j = ground (arith, n.cells j, g.range j)

negative-IsSavable :
    (max_pixels : ℕ) (orig image : Image)
    → IsSavable max_pixels orig
    → IsGrey orig
    → Negates orig image
    → IsSavable max_pixels image
negative-IsSavable max_pixels orig image s g n =
    let f = n.frame in
    record {
      first = s.first;
      second = s.second;
      typed = f.type ∙ s.typed;
      one_line = s.one_line;
      width_int = omega (arith, f.width, s.width_int);
      height_int = omega (arith, f.height, s.height_int);
      max_int = omega (arith, f.pixel_max, s.max_int);
      room = rw (f.width, f.height) s.room;
      bytes = λ j. omega (arith, negative-le orig image g n j, g.depth);
    }

-- What is known of the image that is loaded.
record AsLoaded (max_pixels : ℕ) (image image' : Image) : Type 0 where
  frame : SameFrame image' image
  len : length image'.cells ≡ max_pixels
  cells : (i : ℕ) → cell image' i ≡ (if ltb i (size image) then cell image i else 0)

reloaded-AsLoaded :
    (max_pixels : ℕ) (image : Image)
    → IsSavable max_pixels image
    → AsLoaded max_pixels image (reloaded max_pixels image)
reloaded-AsLoaded max_pixels image s = record {
  frame = record { type = refl; width = refl; height = refl; pixel_max = refl };
  len = length-reloaded max_pixels image s.room;
  cells = λ i. cell-reloaded (size image) (max_pixels - size image) i image;
}

module _ (max_pixels : ℕ) (image image' : Image) (s : IsSavable max_pixels image) (g : IsGrey image)
    (l : AsLoaded max_pixels image image') where
  loaded_size : size image' ≡ size image
  loaded_size = same_size image' image l.frame

  loaded-le : (j : ℕ) → cell image' j ≤ image.pixel_max
  loaded-le j = ground (arith, l.cells j, g.range j)

  loaded-IsGrey : IsGrey image'
  loaded-IsGrey =
      let f = l.frame in
      record {
        depth = omega (arith, f.pixel_max, g.depth);
        range = λ j. omega (arith, f.pixel_max, loaded-le j);
        room = omega (arith, loaded_size, l.len, s.room);
      }

  loaded-IsSavable : IsSavable max_pixels image'
  loaded-IsSavable =
      let f = l.frame in
      record {
        first = s.first;
        second = s.second;
        typed = f.type ∙ s.typed;
        one_line = s.one_line;
        width_int = omega (arith, f.width, s.width_int);
        height_int = omega (arith, f.height, s.height_int);
        max_int = omega (arith, f.pixel_max, s.max_int);
        room = omega (arith, loaded_size, s.room);
        bytes = λ j. omega (arith, loaded-le j, g.depth);
      }

-- The cells of the file that is written, from those of the file that is read.
negative_cell :
    (max_pixels : ℕ) (image image' n n' : Image)
    → AsLoaded max_pixels image image'
    → Negates image' n
    → AsLoaded max_pixels n n'
    → (j : ℕ) → j < size image
    → cell n' j ≡ image.pixel_max - cell image j
negative_cell max_pixels image image' n n' l g r j h = ground (
  arith,
  l.cells j,
  g.cells j,
  r.cells j,
  same_size image' image l.frame,
  same_size n image' g.frame,
  l.frame.pixel_max,
)

with_option-some :
    (max_pixels : ℕ) (files : List ℕ → Option (List ℕ)) (schedule : List ℕ) (n : ℕ)
    (method : Method) (ifilename ofilename file : List ℕ) (image : Image)
    → files ifilename ≡ some file
    → load_image max_pixels file ≡ loaded image
    → with_option max_pixels files schedule (pos n) (some method) ifilename ofilename
      ≡ writes ofilename (save_image (negate method n schedule image))
unfolding with_option negate_and_save
with_option-some max_pixels files schedule n method ifilename ofilename file image f e =
    rw (with_option, f) (ap (negate_and_save max_pixels files schedule method n ofilename) e)

-- The whole program, given the file of a grey image of at most eight bits, a number of threads above
-- 0 and either method, whatever the order of the threads' turns, as long as, with `numbers`, every cell
-- is as bright at the second read for `val` as at the first, once they have all left their loops: it writes a file from which an image of the same type, sizes and maximum is loaded, each of whose
-- cells is the negative.
pub main-negative :
    (max_pixels n : ℕ) (files : List ℕ → Option (List ℕ)) (schedule : List ℕ) (image : Image)
    → IsSavable max_pixels image
    → IsGrey image
    → (program threads_no option ifilename ofilename : List ℕ) (method : Method)
    → to_int (strtol threads_no) ≡ pos n
    → 0 < n
    → method_of option ≡ some method
    → files ifilename ≡ some (save_image image)
    → AllSteady method n schedule (reloaded max_pixels image)
    → AllJoined method n schedule (reloaded max_pixels image)
    → (contents : List ℕ) × (negative : Image) × (main max_pixels files schedule
          (program ∷ threads_no ∷ option ∷ ifilename ∷ ofilename ∷ [])
        ≡ writes ofilename contents)
      × (load_image max_pixels contents ≡ loaded negative)
      × (negative.type ≡ image.type)
      × (negative.width ≡ image.width)
      × (negative.height ≡ image.height)
      × (negative.pixel_max ≡ image.pixel_max)
      × ((j : ℕ) → j < size image → cell negative j ≡ image.pixel_max - cell image j)
unfolding main
main-negative max_pixels n files schedule image s g program threads_no option ifilename ofilename
      method t h m f steady joined =
    let image' = reloaded max_pixels image in
    let l = reloaded-AsLoaded max_pixels image s in
    let g' = loaded-IsGrey max_pixels image image' s g l in
    let s' = loaded-IsSavable max_pixels image image' s g l in
    let neg = negate method n schedule image' in
    let negs = negate-Negates method n schedule image' g' h steady joined in
    let ns = negative-IsSavable max_pixels image' neg s' g' negs in
    let negative = reloaded max_pixels neg in
    let l' = reloaded-AsLoaded max_pixels neg ns in
    let a = then_same negative neg image' l'.frame negs.frame in
    let b = then_same negative image' image a l.frame in
    (
      save_image neg,
      negative,
      ap (λ z. with_option max_pixels files schedule z (method_of option) ifilename ofilename) t
          ∙ ap (λ o. with_option max_pixels files schedule (pos n) o ifilename ofilename) m
          ∙ with_option-some max_pixels files schedule n method ifilename ofilename
              (save_image image) image' f (load_image-save_image max_pixels image s),
      load_image-save_image max_pixels neg ns,
      b.type,
      b.width,
      b.height,
      b.pixel_max,
      negative_cell max_pixels image image' neg negative l negs l',
    )
