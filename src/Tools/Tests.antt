-- ===== src/Tools/Tests.antt =====
-- lab02/src/lib/src/lib_library.c: lines, merging and numbers.
use agh_sem4_sysopy.Common.{
  some, none, ℕ, zero, suc, ◌≡◌, refl, List, [], ◌∷◌, ◌++◌, arith, map, replicate,
}
use agh_sem4_sysopy.Common.Int.{negsuc}
use agh_sem4_sysopy.Libc.Numbers.{decimal}
use agh_sem4_sysopy.Libc.Text.{codes}
use agh_sem4_sysopy.Tools.Lines.{fgetline, string_size, merge}
use agh_sem4_sysopy.Tools.Lines.Merged.{IsLine, text_of, written, merged, merge-merged}
use agh_sem4_sysopy.Tools.Breaking.{break_lines}
use agh_sem4_sysopy.Tools.Breaking.Broken.{all_broken, break_lines-all_broken}
use agh_sem4_sysopy.Tools.Replacing.{replace}
use agh_sem4_sysopy.Tools.Replacing.Substituted.{substitute, replace-substitute}
use agh_sem4_sysopy.Tools.Numbers.Meant.{
  is_twice, is_tens, has_root, how_many, lines_which, filter_numbers-lines_which,
}
use agh_sem4_sysopy.Tools.Numbers.{number_size, round_sqrt, filter_numbers}
use agh_sem4_sysopy.Tools.Numbers.Counted.{count_text}

fgetline_runs : fgetline (codes "ab\ncd") ≡ (codes "ab\n", codes "cd")
unfolding fgetline
fgetline_runs = refl

string_size_runs : string_size (codes "ab\ncd") ≡ 3
unfolding string_size
string_size_runs = refl

round_sqrt_runs : round_sqrt 12 ≡ 3
unfolding round_sqrt
round_sqrt_runs = refl

-- A negative number has one digit for `numberSize`.
negative_size : number_size (negsuc 41) ≡ 1
unfolding number_size
negative_size = refl

abbrev three : List (List ℕ)
three = codes "a" ∷ codes "b" ∷ codes "c" ∷ []

abbrev one : List (List ℕ)
one = codes "x" ∷ []

-- The third line is written twice.
merged_runs :
    merged three one
    ≡ written (codes "a\n")
      ++ (written (codes "x\n")
          ++ (written (codes "b\n")
              ++ (written (codes "c\n") ++ (written (codes "c\n") ++ written []))))
unfolding merged
merged_runs = refl

merge-merged_example : (merge (text_of three) (text_of one)).out ≡ merged three one
merge-merged_example =
    merge-merged three one
      (
        (refl, refl, tt),
        omega arith,
        ((refl, refl, tt), omega arith, ((refl, refl, tt), omega arith, tt)),
      )
      ((refl, refl, tt), omega arith, tt)

filter_numbers-lines_which_example : filter_numbers (text_of (map decimal (9 ∷ 100 ∷ 171 ∷ []))) ≡ (
  count_text (how_many is_twice (9 ∷ 100 ∷ 171 ∷ [])),
  lines_which is_tens (9 ∷ 100 ∷ 171 ∷ []),
  lines_which (λ n. has_root n n) (9 ∷ 100 ∷ 171 ∷ []),
)
filter_numbers-lines_which_example =
    filter_numbers-lines_which (9 ∷ 100 ∷ 171 ∷ []) (omega arith, (omega arith, (omega arith, tt)))

filtered_lines : lines_which is_tens (9 ∷ 100 ∷ 171 ∷ []) ≡ codes "100\n171\n"
unfolding lines_which decimal
filtered_lines = refl

-- 99 characters and a newline: the end of the second piece is the line's own, and an empty line follows.
abbrev long : List (List ℕ)
long = replicate 99 65 ∷ codes "B" ∷ []

long_broken :
    all_broken long
    ≡ replicate 50 65 ++ (codes "\n" ++ (replicate 49 65 ++ (codes "\n\n" ++ codes "B\n")))
unfolding all_broken
long_broken = refl

break_lines-all_broken_example : break_lines (text_of long) 50 ≡ some (all_broken long)
break_lines-all_broken_example =
    break_lines-all_broken long (as-IsLine 99, omega arith, ((refl, refl, tt), omega arith, tt))
  where
    as-IsLine : (n : ℕ) → IsLine (replicate n 65)
    as-IsLine zero = tt
    as-IsLine (suc n) = (refl, refl, as-IsLine n)

-- At 10, a line of sixty bytes is copied from a place of the buffer that is past its end.
ten : break_lines (text_of (replicate 59 65 ∷ [])) 10 ≡ none
unfolding break_lines text_of
ten = refl

abbrev seen : List (List ℕ)
seen = codes "see" ∷ codes "e" ∷ codes "no" ∷ []

seen_replaced : text_of (map (substitute 101 (codes "test")) seen) ≡ codes "stesttest\ntest\nno\n"
unfolding text_of substitute
seen_replaced = refl

replace-substitute_example :
    replace (text_of seen) (codes "e") (codes "test")
    ≡ some (text_of (map (substitute 101 (codes "test")) seen))
replace-substitute_example =
    replace-substitute 101 (codes "test") seen refl refl
      (refl, refl, (refl, refl, (refl, refl, (refl, refl, tt))))
      (
        (refl, refl, (refl, refl, (refl, refl, tt))),
        omega arith,
        ((refl, refl, tt), omega arith, ((refl, refl, (refl, refl, tt)), omega arith, tt)),
      )

-- Two places where the pattern stands overlap: both are counted, one is replaced, and a zero is written.
overlap :
    replace (codes "aaa\n") (codes "aa") (codes "bbb") ≡ some (codes "bbba" ++ (0 ∷ codes "\n"))
unfolding replace
overlap = refl

-- With a shorter text the buffer is too small.
overlap_short : replace (codes "aaa\n") (codes "aa") (codes "b") ≡ none
unfolding replace
overlap_short = refl
