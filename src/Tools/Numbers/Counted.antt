-- ===== src/Tools/Numbers/Counted.antt =====
-- lab02/src/lib/src/lib_library.c: what `filterNumbers` writes of a file of numbers.
use mathlib.Core.List.{append-nil, append_assoc}
use agh_sem4_sysopy.Common.{
  ℕ, zero, suc, ◌+◌, ◌-◌, ◌^◌, ◌<◌, ◌≡◌, refl, sym, ap, ◌∙◌, Bool, true, false, List, [], ◌∷◌, ◌++◌,
  arith, if◌then◌else◌, length, length-append, take, take-length, replicate, map,
}
use agh_sem4_sysopy.Common.Int.{ℤ, pos}
use agh_sem4_sysopy.Libc.Numbers.{
  decimal, strtol, to_int, AllDigits, decimal-AllDigits, print_int, strtol-print_int,
}
use agh_sem4_sysopy.Libc.Text.{codes}
use agh_sem4_sysopy.Tools.Lines.{fgetline, is_empty, newline, max_line_len}
use agh_sem4_sysopy.Tools.Lines.Merged.{
  IsLine, text_of, fgetline_lem, length-text_of, is_empty-line,
}
use agh_sem4_sysopy.Tools.Numbers.{
  number_size, is_even, has_tens, is_square, write_bytes, Sorted, sort_line, sort_rounds,
  write_count, filter_numbers,
}
use agh_sem4_sysopy.Tools.Numbers.Filtered.{number_size-length}

-- How many of the numbers are even, and the lines of those that pass a test.
unfoldable pub even_count : List ℕ → ℕ
unfolding is_even
even_count [] = 0
even_count (n ∷ ns) = (if is_even (pos n) then 1 else 0) + even_count ns

unfoldable pub lines_where : (ℤ → Bool) → List ℕ → List ℕ
lines_where p [] = []
lines_where p (n ∷ ns) = (if p (pos n) then decimal n ++ newline ∷ [] else []) ++ lines_where p ns

abbrev pub AreInts : List ℕ → Type 0
AreInts [] = Unit
AreInts (n ∷ ns) = (n < 2 ^ 31) × AreInts ns

digits-IsLine : (ds : List ℕ) → AllDigits ds → IsLine ds
digits-IsLine [] h = tt
digits-IsLine (d ∷ ds) h = (ground (arith, h.0), ground (arith, h.0), digits-IsLine ds h.1)

-- `numberSize` and one byte more: the whole line.
write_bytes-line :
    (n : ℕ) (out : List ℕ)
    → write_bytes (number_size (pos n) + 1) (decimal n ++ newline ∷ []) out
      ≡ out ++ (decimal n ++ newline ∷ [])
unfolding write_bytes
write_bytes-line n out =
    let line = decimal n ++ newline ∷ [] in
    let k : number_size (pos n) + 1 ≡ length line =
      omega (arith, number_size-length n, length-append (decimal n) (newline ∷ [])) in
    ap (λ j. out ++ take j (line ++ replicate (max_line_len - length line) 0)) k
    ∙ ap (λ t. out ++ t) (take-length line (replicate (max_line_len - length line) 0))

reads : (n : ℕ) → n < 2 ^ 31 → to_int (strtol (decimal n ++ newline ∷ [])) ≡ pos n
unfolding print_int
reads n h = strtol-print_int (pos n) (newline ∷ []) h refl

-- A line of a number.
sort_line-number :
    (n : ℕ) (s : Sorted)
    → n < 2 ^ 31
    → sort_line (decimal n ++ newline ∷ []) s ≡ record {
      even_counter = s.even_counter + (if is_even (pos n) then 1 else 0);
      out_b = s.out_b ++ (if has_tens (pos n) then decimal n ++ newline ∷ [] else []);
      out_c = s.out_c ++ (if is_square (pos n) then decimal n ++ newline ∷ [] else []);
    }
unfolding sort_line
sort_line-number n s h =
    rw
      (
        reads n h,
        counted (is_even (pos n)),
        chosen (has_tens (pos n)) s.out_b,
        chosen (is_square (pos n)) s.out_c,
      )
      refl
  where
    counted :
        (b : Bool)
        → (if b then s.even_counter + 1 else s.even_counter) ≡ s.even_counter + (if b then 1 else 0)
    counted true = refl
    counted false = omega arith

    chosen :
        (b : Bool) (out : List ℕ)
        → (if b then write_bytes (number_size (pos n) + 1) (decimal n ++ newline ∷ []) out else out)
          ≡ out ++ (if b then decimal n ++ newline ∷ [] else [])
    chosen true out = write_bytes-line n out
    chosen false out = sym (append-nil out)

sort_rounds-numbers :
    (fuel : ℕ) (ns : List ℕ) (s : Sorted)
    → AreInts ns
    → length ns < fuel
    → sort_rounds fuel (text_of (map decimal ns)) s ≡ record {
      even_counter = s.even_counter + even_count ns;
      out_b = s.out_b ++ lines_where has_tens ns;
      out_c = s.out_c ++ lines_where is_square ns;
    }
unfolding sort_rounds text_of fgetline even_count lines_where
sort_rounds-numbers zero ns s h l = elim l [ ]
sort_rounds-numbers (suc fuel) [] s h l =
    rw (append-nil s.out_b, append-nil s.out_c)
      (ap (λ c. record s { even_counter = c }) (omega arith))
sort_rounds-numbers (suc fuel) (n ∷ ns) s h l =
    let b = if has_tens (pos n) then decimal n ++ newline ∷ [] else [] in
    let c = if is_square (pos n) then decimal n ++ newline ∷ [] else [] in
    let k : ℕ = if is_even (pos n) then 1 else 0 in
    let add : s.even_counter + k + even_count ns ≡ s.even_counter + (k + even_count ns) =
      omega arith in
    ap next (
      fgetline_lem (decimal n) (text_of (map decimal ns))
        (digits-IsLine (decimal n) (decimal-AllDigits n)))
    ∙ rw (is_empty-line (decimal n)) refl
    ∙ ap (sort_rounds fuel (text_of (map decimal ns))) (sort_line-number n s h.0)
    ∙ sort_rounds-numbers fuel ns _ h.1 (omega arith)
    ∙ rw
        (
          add,
          append_assoc s.out_b b (lines_where has_tens ns),
          append_assoc s.out_c c (lines_where is_square ns),
        )
        refl
  where
    next : List ℕ × List ℕ → Sorted
    next p = elim (is_empty p.0) [ true ↦ s | false ↦ sort_rounds fuel p.1 (sort_line p.0 s) ]

-- The text for the file `a`, of which nothing is cut off.
abbrev pub count_text : ℕ → List ℕ
count_text n = codes "Liczb parzystych jest " ++ (decimal n ++ codes "\n")

write_count_lem : (n : ℕ) → write_count n ≡ count_text n
unfolding write_count
write_count_lem n =
    let k : 23 + number_size (pos n) ≡ length (count_text n) = omega (
      arith,
      number_size-length n,
      length-append (codes "Liczb parzystych jest ") (decimal n ++ codes "\n"),
      length-append (decimal n) (codes "\n"),
    ) in
    ap (λ j. take j (count_text n ++ replicate (40 - length (count_text n)) 0)) k
    ∙ take-length (count_text n) (replicate (40 - length (count_text n)) 0)

length-map-decimal : (ns : List ℕ) → length (map decimal ns) ≡ length ns
length-map-decimal [] = refl
length-map-decimal (n ∷ ns) = ap suc (length-map-decimal ns)

-- `filterNumbers` of a file of numbers that are not negative and fit in an int, each on a line: the file
-- `a` says how many are even, `b` holds the lines of those above 10 whose tens digit is 0 or 7, `c` the
-- lines of those whose rounded root has them as its square.
pub filter_numbers-lines_where :
    (ns : List ℕ)
    → AreInts ns
    → filter_numbers (text_of (map decimal ns))
      ≡ (count_text (even_count ns), lines_where has_tens ns, lines_where is_square ns)
unfolding filter_numbers
filter_numbers-lines_where ns h =
    let start : Sorted = record { even_counter = 0; out_b = []; out_c = [] } in
    let e =
      sort_rounds-numbers (length (text_of (map decimal ns)) + 1) ns start h
        (omega (arith, length-text_of (map decimal ns), length-map-decimal ns)) in
    let none_yet : 0 + even_count ns ≡ even_count ns = omega arith in
    ap (λ s. (write_count s.even_counter, s.out_b, s.out_c)) e
    ∙ ap (λ k. (write_count k, lines_where has_tens ns, lines_where is_square ns)) none_yet
    ∙ ap (λ t. (t, lines_where has_tens ns, lines_where is_square ns))
        (write_count_lem (even_count ns))
