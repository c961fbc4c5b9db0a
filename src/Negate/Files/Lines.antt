-- ===== src/Negate/Files/Lines.antt =====
-- lab08/src/negate.c: the first lines of a file that `save_image` wrote, read by `load_image`.
use agh_sem4_sysopy.Common.{
  ℕ, ◌^◌, ◌≤◌, ◌<◌, ◌≡◌, refl, subst, sym, ap, ◌∙◌, true, false, List, [], ◌∷◌, ◌++◌, arith, le→leb,
  length, length-append,
}
use mathlib.Core.List.{append-nil, append_assoc}
use agh_sem4_sysopy.Common.Int.{pos}
use agh_sem4_sysopy.Libc.Numbers.{
  decimal, strtol, to_int, AllDigits, decimal-AllDigits, length-decimal, decimal-head, is_digit,
}
use agh_sem4_sysopy.Libc.Input.{
  fgets_line, fgets_line_lem, tokens, IsToken-append, tokens-last, NoNewline-append,
}
use agh_sem4_sysopy.Negate.Files.{
  loaded, line_room, is_blank, and_int, load_cells, load_pixels, load_size, load_second,
}
use agh_sem4_sysopy.Negate.Files.Saved.{digits-NoNewline, digits-IsToken, tokens-decimal}
use agh_sem4_sysopy.Negate.Files.Cells.{reads}

-- A printed number and a newline, read as a line.
pub decimal-line :
    (n : ℕ) (rest : List ℕ)
    → n < 2 ^ 31
    → (d : ℕ) × (ds : List ℕ) × (fgets_line line_room (decimal n ++ 10 ∷ rest) ≡ (d ∷ ds, rest))
      × (to_int (strtol (d ∷ ds)) ≡ pos n)
decimal-line n rest h =
    let (d, ds, e, g) = decimal-head n in
    (
      d,
      ds ++ 10 ∷ [],
      fgets_line_lem line_room (decimal n) rest (digits-NoNewline (decimal n) (decimal-AllDigits n))
            (omega (arith, length-decimal 9 n (omega arith)))
          ∙ ap (λ t. (t ++ 10 ∷ [], rest)) e,
      ap (λ t. to_int (strtol (t ++ 10 ∷ []))) (sym e) ∙ reads n (10 ∷ []) h refl,
    )

-- The lines of a saved image, from the last to the first.
pub load_pixels-saved :
    (max_pixels : ℕ) (type : List ℕ) (width height pixel_max d : ℕ) (ds file : List ℕ)
    → to_int (strtol (d ∷ ds)) ≡ pos pixel_max
    → length (load_cells max_pixels file) ≤ max_pixels
    → load_pixels max_pixels type width height (d ∷ ds) file
      ≡ loaded (record {
        type = type;
        cells = load_cells max_pixels file;
        height = height;
        width = width;
        pixel_max = pixel_max;
      })
unfolding load_pixels
load_pixels-saved max_pixels type width height pixel_max d ds file r l =
    let b = le→leb (length (load_cells max_pixels file)) max_pixels l in rw r (rw b refl)

pub load_size-saved :
    (max_pixels : ℕ) (type : List ℕ) (width height : ℕ) (line rest file : List ℕ)
    → width < 2 ^ 31
    → height < 2 ^ 31
    → fgets_line line_room file ≡ (line, rest)
    → load_size max_pixels type (decimal width ∷ (decimal height ++ 10 ∷ []) ∷ []) file
      ≡ load_pixels max_pixels type width height line rest
unfolding load_size
load_size-saved max_pixels type width height line rest file w h e =
    let a : to_int (strtol (decimal width)) ≡ pos width =
      ap (λ t. to_int (strtol t)) (sym (append-nil (decimal width))) ∙ reads width [] w tt in
    ap
      (λ z. and_int z (λ x. and_int (to_int (strtol (decimal height ++ 10 ∷ []))) (λ y.
        load_pixels max_pixels type x y (fgets_line line_room file).0
          (fgets_line line_room file).1)))
      a
    ∙ ap
        (λ z. and_int z (λ y.
          load_pixels max_pixels type width y (fgets_line line_room file).0
            (fgets_line line_room file).1))
        (reads height (10 ∷ []) h refl)
    ∙ ap (λ p. load_pixels max_pixels type width height p.0 p.1) e

digit-blank : (c : ℕ) → is_digit c ≡ true → is_blank c ≡ false
digit-blank c h = ground arith

tokens-height :
    (height : ℕ) → tokens is_blank [] (decimal height ++ 10 ∷ []) ≡ (decimal height ++ 10 ∷ []) ∷ []
unfolding tokens
tokens-height height =
    let (d, ds, e, g) = decimal-head height in
    let all : AllDigits (d ∷ ds) = subst AllDigits e (decimal-AllDigits height) in
    let word =
      IsToken-append is_blank ds (10 ∷ []) (digits-IsToken is_blank digit-blank ds all.1)
        (refl, tt) in
    rw e (
      tokens-step d (ds ++ 10 ∷ []) (digit-blank d g)
      ∙ tokens-last is_blank [] (ds ++ 10 ∷ []) d word)
  where
    tokens-step :
        (d : ℕ) (w : List ℕ)
        → is_blank d ≡ false
        → tokens is_blank [] (d ∷ w) ≡ tokens is_blank (d ∷ []) w
    tokens-step d w h = rw h refl

tokens-second :
    (width height : ℕ)
    → tokens is_blank [] ((decimal width ++ 32 ∷ decimal height) ++ 10 ∷ [])
      ≡ decimal width ∷ (decimal height ++ 10 ∷ []) ∷ []
tokens-second width height =
    ap (tokens is_blank []) (append_assoc (decimal width) (32 ∷ decimal height) (10 ∷ []))
    ∙ tokens-decimal is_blank width 32 (decimal height ++ 10 ∷ []) digit-blank refl
    ∙ ap (λ ts. decimal width ∷ ts) (tokens-height height)

pub second-line :
    (width height : ℕ) (rest : List ℕ)
    → width < 2 ^ 31
    → height < 2 ^ 31
    → let second = decimal width ++ 32 ∷ decimal height in
      fgets_line line_room (second ++ 10 ∷ rest) ≡ (second ++ 10 ∷ [], rest)
second-line width height rest w h =
    let second = decimal width ++ 32 ∷ decimal height in
    fgets_line_lem line_room second rest
      (NoNewline-append (decimal width) (32 ∷ decimal height)
        (digits-NoNewline (decimal width) (decimal-AllDigits width))
        (refl, digits-NoNewline (decimal height) (decimal-AllDigits height)))
      (omega (
        arith,
        length-append (decimal width) (32 ∷ decimal height),
        length-decimal 9 width (omega arith),
        length-decimal 9 height (omega arith),
      ))

pub load_second-saved :
    (max_pixels : ℕ) (type : List ℕ) (width height : ℕ) (file : List ℕ)
    → load_second max_pixels type ((decimal width ++ 32 ∷ decimal height) ++ 10 ∷ []) file
      ≡ load_size max_pixels type (decimal width ∷ (decimal height ++ 10 ∷ []) ∷ []) file
load_second-saved max_pixels type width height file =
    some-line ((decimal width ++ 32 ∷ decimal height) ++ 10 ∷ [])
      (omega (arith, length-append (decimal width ++ 32 ∷ decimal height) (10 ∷ [])))
    ∙ ap (λ ts. load_size max_pixels type ts file) (tokens-second width height)
  where
    some-line :
        (line : List ℕ)
        → 1 ≤ length line
        → load_second max_pixels type line file
          ≡ load_size max_pixels type (tokens is_blank [] line) file
    some-line [] h = absurd (omega arith)
    some-line (c ∷ cs) h = unfold load_second in refl
