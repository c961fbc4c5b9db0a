-- ===== src/Negate/Files/Saved.antt =====
-- lab08/src/negate.c: the tokens and the lines of the cells that `save_image` prints.
use agh_sem4_sysopy.Common.{
  ℕ, zero, suc, ◌+◌, ◌-◌, ◌*◌, ◌%◌, ◌≤◌, ◌≡◌, refl, subst, ap, ◌∙◌, Bool, true, false, List, [],
  ◌∷◌, ◌++◌, arith, ◌==◌, if◌then◌else◌, length, length-append, length-replicate, replicate,
}
use mathlib.Core.List.{append_assoc}
use agh_sem4_sysopy.Libc.Numbers.{
  decimal, is_digit, AllDigits, decimal-AllDigits, length-decimal, decimal-head,
}
use agh_sem4_sysopy.Libc.Input.{
  tokens, IsToken, tokens-token, lines_fit, lines_fit-append, NoNewline, NoNewline-append,
}
use agh_sem4_sysopy.Negate.Image.{Image, cell}
use agh_sem4_sysopy.Negate.Files.{line_room, max_in_line, is_separator, print_cell, save_cells}

-- The cells as they are printed, without the spaces.
unfoldable pub cell_words : ℕ → ℕ → Image → List (List ℕ)
cell_words zero i image = []
cell_words (suc n) i image = decimal (cell image i % 256) ∷ cell_words n (i + 1) image

pub digits-IsToken :
    (delim : ℕ → Bool)
    → ((c : ℕ) → is_digit c ≡ true → delim c ≡ false)
    → (ds : List ℕ) → AllDigits ds
    → IsToken delim ds
digits-IsToken delim f [] h = tt
digits-IsToken delim f (d ∷ ds) h = (f d h.0, digits-IsToken delim f ds h.1)

pub digit-separator : (c : ℕ) → is_digit c ≡ true → is_separator c ≡ false
digit-separator c h = ground arith

pub digits-NoNewline : (ds : List ℕ) → AllDigits ds → NoNewline ds
digits-NoNewline [] h = tt
digits-NoNewline (d ∷ ds) h = (ground (arith, h.0), digits-NoNewline ds h.1)

-- A printed number, before a character that ends a token.
pub tokens-decimal :
    (delim : ℕ → Bool) (n c : ℕ) (rest : List ℕ)
    → ((c : ℕ) → is_digit c ≡ true → delim c ≡ false)
    → delim c ≡ true
    → tokens delim [] (decimal n ++ c ∷ rest) ≡ decimal n ∷ tokens delim [] rest
unfolding tokens
tokens-decimal delim n c rest f h =
    let (d, ds, e, g) = decimal-head n in
    let all : AllDigits (d ∷ ds) = subst AllDigits e (decimal-AllDigits n) in
    rw (e, f d g) (tokens-token delim [] ds rest d c (digits-IsToken delim f ds all.1) h)

tokens-spaces :
    (k : ℕ) (rest : List ℕ)
    → tokens is_separator [] (replicate k 32 ++ rest) ≡ tokens is_separator [] rest
unfolding tokens
tokens-spaces zero rest = refl
tokens-spaces (suc k) rest = tokens-spaces k rest

tokens-print_cell :
    (n : ℕ) (rest : List ℕ)
    → tokens is_separator [] (print_cell n ++ rest)
      ≡ decimal (n % 256) ∷ tokens is_separator [] rest
unfolding print_cell
tokens-print_cell n rest =
    let spaces = replicate (3 - length (decimal (n % 256))) 32 in
    ap (tokens is_separator []) (
      append_assoc spaces (decimal (n % 256) ++ 32 ∷ []) rest
      ∙ ap (λ t. spaces ++ t) (append_assoc (decimal (n % 256)) (32 ∷ []) rest))
    ∙ tokens-spaces (3 - length (decimal (n % 256))) (decimal (n % 256) ++ 32 ∷ rest)
    ∙ tokens-decimal is_separator (n % 256) 32 rest digit-separator refl

tokens-break :
    (b : Bool) (rest : List ℕ)
    → tokens is_separator [] ((if b then 10 ∷ [] else []) ++ rest) ≡ tokens is_separator [] rest
unfolding tokens
tokens-break true rest = refl
tokens-break false rest = refl

-- The line breaks do not matter to the tokens.
pub tokens-save_cells :
    (n i : ℕ) (image : Image) → tokens is_separator [] (save_cells n i image) ≡ cell_words n i image
unfolding save_cells cell_words
tokens-save_cells zero i image = unfold tokens in refl
tokens-save_cells (suc n) i image =
    let ih = tokens-save_cells n (i + 1) image in
    tokens-print_cell (cell image i) _
    ∙ ap (λ ts. decimal (cell image i % 256) ∷ ts)
        (tokens-break ((i + 1) % max_in_line == 0) (save_cells n (i + 1) image) ∙ ih)

length-print_cell : (n : ℕ) → length (print_cell n) ≡ 4
unfolding print_cell
length-print_cell n =
    let d = decimal (n % 256) in
    omega (
      arith,
      length-append (replicate (3 - length d) 32) (d ++ 32 ∷ []),
      length-append d (32 ∷ []),
      length-replicate {A = ℕ} (3 - length d) 32,
      length-decimal 2 (n % 256) (omega arith),
    )

spaces-NoNewline : (k : ℕ) → NoNewline (replicate k 32)
spaces-NoNewline zero = tt
spaces-NoNewline (suc k) = (refl, spaces-NoNewline k)

print_cell-NoNewline : (n : ℕ) → NoNewline (print_cell n)
unfolding print_cell
print_cell-NoNewline n =
    let d = decimal (n % 256) in
    NoNewline-append (replicate (3 - length d) 32) (d ++ 32 ∷ []) (spaces-NoNewline (3 - length d))
      (NoNewline-append d (32 ∷ []) (digits-NoNewline d (decimal-AllDigits (n % 256))) (refl, tt))

lines_fit-break :
    (b : Bool) (left : ℕ) (rest : List ℕ)
    → 1 ≤ left
    → lines_fit line_room (if b then line_room else left) rest ≡ true
    → lines_fit line_room left ((if b then 10 ∷ [] else []) ++ rest) ≡ true
unfolding lines_fit
lines_fit-break true left rest h f = ground arith
lines_fit-break false left rest h f = f

-- Seventeen cells of four characters and a newline stand in a line.
pub lines_fit-save_cells :
    (n i left : ℕ) (image : Image)
    → 69 ≤ left + 4 * (i % max_in_line)
    → lines_fit line_room left (save_cells n i image) ≡ true
unfolding save_cells
lines_fit-save_cells zero i left image h = unfold lines_fit in refl
lines_fit-save_cells (suc n) i left image h =
    let b = (i + 1) % max_in_line == 0 in
    let ih =
      lines_fit-save_cells n (i + 1) (if b then line_room else left - 4) image (ground arith) in
    lines_fit-append line_room left (print_cell (cell image i)) _
      (print_cell-NoNewline (cell image i)) (omega (arith, h, length-print_cell (cell image i)))
      (rw (length-print_cell (cell image i))
        (lines_fit-break b (left - 4) (save_cells n (i + 1) image) (omega (arith, h)) ih))
