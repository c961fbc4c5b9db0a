-- ===== src/Tools/Replacing/Substituted.antt =====
-- lab02/src/lib/src/lib_library.c: what `replace` writes for a pattern of one character.
use mathlib.Core.List.{append-nil, append_assoc}
use agh_sem4_sysopy.Common.{
  ℕ, zero, suc, ◌+◌, ◌-◌, ◌*◌, ◌<◌, ◌≡◌, refl, sym, ap, ◌∙◌, inl, inr, Bool, true, false, List, [],
  ◌∷◌, ◌++◌, arith, ◌==◌, ltb, if◌then◌else◌, Option, some, length, length-append, take, take-all,
  Bool-cases, map,
}
use agh_sem4_sysopy.Libc.Strings.{strn_eq}
use agh_sem4_sysopy.Tools.Lines.{newline, fgetline, string_size, is_empty}
use agh_sem4_sysopy.Tools.Lines.Merged.{
  IsLine, AreLines, text_of, fgetline_lem, is_empty-line, length-text_of,
}
use agh_sem4_sysopy.Tools.Lines.Sizes.{string_size-line, string_size-text}
use agh_sem4_sysopy.Tools.Replacing.{
  count_rounds, copy_rounds, with_newline, replace_line, add_replaced, then_replace, replace_file,
  replace,
}

-- Every c becomes the text r.
unfoldable pub substitute : ℕ → List ℕ → List ℕ → List ℕ
substitute c r [] = []
substitute c r (x ∷ xs) = (if x == c then r else x ∷ []) ++ substitute c r xs

unfoldable pub occurrences : ℕ → List ℕ → ℕ
occurrences c [] = 0
occurrences c (x ∷ xs) = (if x == c then 1 else 0) + occurrences c xs

strn_eq-one : (x c : ℕ) (xs : List ℕ) → (c == 0) ≡ false → strn_eq 1 (x ∷ xs) (c ∷ []) ≡ (x == c)
unfolding strn_eq
strn_eq-one x c xs h = ground (arith, h)

length-substitute :
    (c : ℕ) (r l : List ℕ)
    → length (substitute c r l) + occurrences c l ≡ length l + length r * occurrences c l
unfolding substitute occurrences
length-substitute c r [] = omega arith
length-substitute c r (x ∷ xs) = elim (Bool-cases (x == c)) [
  | inl e ↦ rw e (omega (arith, length-append r (substitute c r xs), length-substitute c r xs))
  | inr e ↦ rw e (omega (arith, length-substitute c r xs))
]

count_rounds-occurrences :
    (c : ℕ) (l rest : List ℕ)
    → (c == 0) ≡ false
    → count_rounds (length l) (l ++ rest) 1 (c ∷ []) ≡ occurrences c l
unfolding count_rounds occurrences
count_rounds-occurrences c [] rest h = refl
count_rounds-occurrences c (x ∷ xs) rest h =
    ap (λ b. (if b then 1 else 0) + count_rounds (length xs) (xs ++ rest) 1 (c ∷ []))
      (strn_eq-one x c (xs ++ rest) h)
    ∙ ap (λ n. (if x == c then 1 else 0) + n) (count_rounds-occurrences c xs rest h)

copy_rounds-substitute :
    (fuel c : ℕ) (r l rest : List ℕ)
    → (c == 0) ≡ false
    → length l < fuel
    → copy_rounds fuel (length l) (l ++ rest) 1 (c ∷ []) r ≡ substitute c r l
unfolding copy_rounds substitute
copy_rounds-substitute zero c r l rest h f = elim f [ ]
copy_rounds-substitute (suc fuel) c r [] rest h f = refl
copy_rounds-substitute (suc fuel) c r (x ∷ xs) rest h f =
    let one : suc (length xs) - 1 ≡ length xs = omega arith in
    let ih = copy_rounds-substitute fuel c r xs rest h (omega arith) in
    ap by_test (strn_eq-one x c (xs ++ rest) h) ∙ elim (Bool-cases (x == c)) [
      | inl e ↦ rw (e, one) (ap (λ t. r ++ t) ih)
      | inr e ↦ rw e (ap (λ t. x ∷ t) ih)
    ]
  where
    by_test : Bool → List ℕ
    by_test b = elim b [
      | true ↦ r ++ copy_rounds fuel (suc (length xs) - 1) (xs ++ rest) 1 (c ∷ []) r
      | false ↦ x ∷ copy_rounds fuel (length xs) (xs ++ rest) 1 (c ∷ []) r
    ]

with_newline-fits :
    (text : List ℕ) (n : ℕ)
    → n ≡ suc (length text)
    → with_newline text n ≡ some (text ++ newline ∷ [])
unfolding with_newline
with_newline-fits text n e =
    let yes : ltb (length text) n ≡ true = ground arith in
    let z : n - 1 - length text ≡ 0 = omega arith in rw (yes, z) refl

replace_line-substitute :
    (c : ℕ) (r l : List ℕ)
    → (c == 0) ≡ false
    → (c == newline) ≡ false
    → IsLine r
    → IsLine l
    → replace_line (c ∷ []) r (l ++ newline ∷ []) ≡ some (substitute c r l ++ newline ∷ [])
unfolding replace_line string_size
replace_line-substitute c r l h n hr hl =
    let size : string_size (l ++ newline ∷ []) ≡ suc (length l) =
      omega (arith, string_size-line l hl, length-append l (newline ∷ [])) in
    let less : suc (length l) - 1 ≡ length l = omega arith in
    let copied = copy_rounds-substitute (suc (length l)) c r l (newline ∷ []) h (omega arith) in
    rw n refl
    ∙ ap (λ k. by_sizes k (string_size r)) size
    ∙ ap (by_sizes (suc (length l))) (string_size-text r hr)
    ∙ ap (λ t. by_text t (length r)) (take-all (length r) r (omega arith))
    ∙ ap (λ k. by_length k) less
    ∙ ap
        (λ t. with_newline t (
          suc (length l)
          + length r * count_rounds (length l) (l ++ newline ∷ []) 1 (c ∷ [])
          - 1 * count_rounds (length l) (l ++ newline ∷ []) 1 (c ∷ [])))
        copied
    ∙ ap (λ k. with_newline (substitute c r l) (suc (length l) + length r * k - 1 * k))
        (count_rounds-occurrences c l (newline ∷ []) h)
    ∙ with_newline-fits (substitute c r l) _ (omega (arith, length-substitute c r l))
  where
    by_sizes : ℕ → ℕ → Option (List ℕ)
    by_sizes size q =
        let line = l ++ newline ∷ [] in
        let ctr = count_rounds (size - 1) line 1 (c ∷ []) in
        with_newline (copy_rounds size (size - 1) line 1 (c ∷ []) (take q r))
          (size + q * ctr - 1 * ctr)

    by_text : List ℕ → ℕ → Option (List ℕ)
    by_text t q =
        let line = l ++ newline ∷ [] in
        let ctr = count_rounds (suc (length l) - 1) line 1 (c ∷ []) in
        with_newline (copy_rounds (suc (length l)) (suc (length l) - 1) line 1 (c ∷ []) t)
          (suc (length l) + q * ctr - 1 * ctr)

    by_length : ℕ → Option (List ℕ)
    by_length k =
        let line = l ++ newline ∷ [] in
        let ctr = count_rounds k line 1 (c ∷ []) in
        with_newline (copy_rounds (suc (length l)) k line 1 (c ∷ []) r)
          (suc (length l) + length r * ctr - 1 * ctr)

replace_file-substitute :
    (fuel c : ℕ) (r : List ℕ) (ls : List (List ℕ)) (out : List ℕ)
    → (c == 0) ≡ false
    → (c == newline) ≡ false
    → IsLine r
    → AreLines ls
    → length ls < fuel
    → replace_file fuel (text_of ls) (c ∷ []) r out
      ≡ some (out ++ text_of (map (substitute c r) ls))
unfolding replace_file text_of fgetline
replace_file-substitute zero c r ls out h n hr hl f = elim f [ ]
replace_file-substitute (suc fuel) c r [] out h n hr hl f = ap some (sym (append-nil out))
replace_file-substitute (suc fuel) c r (m ∷ ls) out h n hr hl f =
    let s = substitute c r m in
    let more = text_of (map (substitute c r) ls) in
    ap next (fgetline_lem m (text_of ls) hl.0)
    ∙ rw (is_empty-line m, replace_line-substitute c r m h n hr hl.0, add_replaced, then_replace)
        refl
    ∙ replace_file-substitute fuel c r ls (out ++ (s ++ newline ∷ [])) h n hr hl.2 (omega arith)
    ∙ ap some (append_assoc out (s ++ newline ∷ []) more)
    ∙ ap (λ t. some (out ++ t)) (append_assoc s (newline ∷ []) more)
  where
    next : List ℕ × List ℕ → Option (List ℕ)
    next p = elim (is_empty p.0) [
      | true ↦ some out
      | false ↦
          then_replace (replace_file fuel p.1 (c ∷ []) r)
            (add_replaced out (replace_line (c ∷ []) r p.0))
    ]

-- `replace` of a pattern of one character, not a newline, by a text without newlines, in a file made of
-- lines of less than 254 bytes: no write leaves the buffer, and each of the characters becomes the text.
pub replace-substitute :
    (c : ℕ) (r : List ℕ) (ls : List (List ℕ))
    → (c == 0) ≡ false
    → (c == newline) ≡ false
    → IsLine r
    → AreLines ls
    → replace (text_of ls) (c ∷ []) r ≡ some (text_of (map (substitute c r) ls))
unfolding replace
replace-substitute c r ls h n hr hl =
    replace_file-substitute (length (text_of ls) + 1) c r ls [] h n hr hl
      (omega (arith, length-text_of ls))
