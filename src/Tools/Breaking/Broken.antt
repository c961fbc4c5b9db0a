-- ===== src/Tools/Breaking/Broken.antt =====
-- lab02/src/lib/src/lib_library.c: what `breakLines` writes.
use mathlib.Core.List.{append-nil, append_assoc}
use agh_sem4_sysopy.Common.{
  ℕ, zero, suc, ◌+◌, ◌-◌, ◌*◌, ◌/◌, ◌≤◌, ◌<◌, ◌≡◌, refl, sym, ap, ◌∙◌, inl, inr, true, false, List,
  [], ◌∷◌, ◌++◌, arith, ltb, Option, some, length, length-append, length-take, ◌&&◌, take, drop,
  replicate, take-all, take-length, length-take_le, length-drop, drop-drop, Bool-cases,
}
use agh_sem4_sysopy.Tools.Lines.{newline, fgetline, is_empty, max_line_len}
use agh_sem4_sysopy.Tools.Lines.Merged.{
  IsLine, AreLines, text_of, fgetline_lem, is_empty-line, length-text_of,
}
use agh_sem4_sysopy.Tools.Lines.Sizes.{string_size-line}
use agh_sem4_sysopy.Tools.Breaking.{
  broken_size, piece_at, break_rounds, written_pieces, break_line, add_broken, then_break,
  break_file, break_lines,
}

-- A newline after each of the first k pieces of 50 characters.
unfoldable pub broken : ℕ → List ℕ → List ℕ
broken zero line = line
broken (suc k) line = take 50 line ++ newline ∷ broken k (drop 50 line)

length-broken :
    (k : ℕ) (line : List ℕ) → 50 * k ≤ length line → length (broken k line) ≡ length line + k
unfolding broken
length-broken zero line h = omega arith
length-broken (suc k) line h =
    let n = length-take_le 50 line (omega (arith, h)) in
    let d = length-drop 50 line in
    omega (
      arith,
      n,
      d,
      length-append (take 50 line) (newline ∷ broken k (drop 50 line)),
      length-broken k (drop 50 line) (omega (arith, d, h)),
    )

fits :
    (i : ℕ) (line : List ℕ)
    → 50 * i < max_line_len
    → (ltb (50 * i) max_line_len && ltb (length (piece_at i line)) broken_size) ≡ true
fits i line h =
    let place : ltb (50 * i) max_line_len ≡ true = ground arith in
    let short : length (piece_at i line) < broken_size = omega (
      arith,
      length-take 50 (drop (50 * i) line),
      length-append (take 50 (drop (50 * i) line)) (newline ∷ []),
    ) in
    rw (place, less (length (piece_at i line)) broken_size short) refl
  where
    less : (a b : ℕ) → a < b → ltb a b ≡ true
    less a b h = ground arith

break_rounds-broken :
    (k i : ℕ) (line buf : List ℕ)
    → length (drop (50 * i) line) < 50 * k + 50
    → 50 * i + 50 * k < max_line_len
    → break_rounds (suc k) i line buf
      ≡ some (buf ++ (broken k (drop (50 * i) line) ++ newline ∷ []))
unfolding break_rounds broken
break_rounds-broken zero i line buf l h =
    let yes = fits i line (omega (arith, h)) in
    rw (break_rounds, yes, broken, take-all 50 (drop (50 * i) line) (omega (arith, l))) refl
break_rounds-broken (suc k) i line buf l h =
    let rest = drop (50 * i) line in
    let yes = fits i line (omega (arith, h)) in
    let e : drop (50 * (i + 1)) line ≡ drop 50 rest =
      ap (λ n. drop n line) (omega arith) ∙ sym (drop-drop (50 * i) 50 line) in
    let d = length-drop 50 rest in
    let piece = take 50 rest ++ newline ∷ [] in
    rw (break_rounds, yes) refl
    ∙ break_rounds-broken k (i + 1) line (buf ++ piece) (rw e (omega (arith, d, l)))
        (omega (arith, h))
    ∙ rw e (ap some (append_assoc buf piece (broken k (drop 50 rest) ++ newline ∷ [])))
    ∙ ap (λ t. some (buf ++ t))
        (append_assoc (take 50 rest) (newline ∷ []) (broken k (drop 50 rest) ++ newline ∷ [])
          ∙ sym (append_assoc (take 50 rest) (newline ∷ broken k (drop 50 rest)) (newline ∷ [])))

-- The buffer holds one newline more than is written.
written_pieces-broken :
    (k : ℕ) (line : List ℕ)
    → 50 * k ≤ length line
    → written_pieces (length line + k) (some (broken k line ++ newline ∷ [])) ≡ some (broken k line)
unfolding written_pieces
written_pieces-broken k line h =
    let zeros = replicate (length line + k + 2 - length (broken k line ++ newline ∷ [])) 0 in
    let n = length-broken k line h in
    let room : ltb (length (broken k line ++ newline ∷ [])) (length line + k + 2) ≡ true =
      ground (arith, n, length-append (broken k line) (newline ∷ [])) in
    rw room refl
    ∙ ap (λ n. some (take n ((broken k line ++ newline ∷ []) ++ zeros))) (sym n)
    ∙ ap (λ t. some (take (length (broken k line)) t))
        (append_assoc (broken k line) (newline ∷ []) zeros)
    ∙ ap some (take-length (broken k line) (newline ∷ zeros))

break_line-broken :
    (l : List ℕ)
    → IsLine l
    → length l < 254
    → break_line 50 (l ++ newline ∷ [])
      ≡ some (broken (length (l ++ newline ∷ []) / 50) (l ++ newline ∷ []))
unfolding break_line broken
break_line-broken l i h =
    let line = l ++ newline ∷ [] in
    let n = length-append l (newline ∷ []) in
    let k = length line / 50 in
    let size = string_size-line l i in
    ap by_size size ∙ elim (Bool-cases (ltb 0 k)) [
      | inl some_breaks ↦
          rw some_breaks refl
          ∙ ap (written_pieces (length line + k))
              (break_rounds-broken k 0 line [] (ground arith) (ground (arith, n)))
          ∙ written_pieces-broken k line (ground arith)
      | inr none_at_all ↦
          let z : length line / 50 ≡ 0 = ground arith in
          rw (none_at_all, z) (ap some (take-all (length line) line (omega arith)))
    ]
  where
    by_size : ℕ → Option (List ℕ)
    by_size n = elim (ltb 0 (n / 50)) [
      | true ↦ written_pieces (n + n / 50) (break_rounds (suc (n / 50)) 0 (l ++ newline ∷ []) [])
      | false ↦ some (take n (l ++ newline ∷ []))
    ]

-- Each line of a file, broken after every 50 characters.
unfoldable pub all_broken : List (List ℕ) → List ℕ
unfolding broken
all_broken [] = []
all_broken (l ∷ ls) = broken (length (l ++ newline ∷ []) / 50) (l ++ newline ∷ []) ++ all_broken ls

break_file-all_broken :
    (fuel : ℕ) (ls : List (List ℕ)) (out : List ℕ)
    → AreLines ls
    → length ls < fuel
    → break_file fuel (text_of ls) 50 out ≡ some (out ++ all_broken ls)
unfolding break_file text_of all_broken fgetline
break_file-all_broken zero ls out h l = elim l [ ]
break_file-all_broken (suc fuel) [] out h l = ap some (sym (append-nil out))
break_file-all_broken (suc fuel) (m ∷ ls) out h l =
    let pieces = broken (length (m ++ newline ∷ []) / 50) (m ++ newline ∷ []) in
    ap next (fgetline_lem m (text_of ls) h.0)
    ∙ rw (is_empty-line m, break_line-broken m h.0 h.1, add_broken, then_break) refl
    ∙ break_file-all_broken fuel ls (out ++ pieces) h.2 (omega arith)
    ∙ ap some (append_assoc out pieces (all_broken ls))
  where
    next : List ℕ × List ℕ → Option (List ℕ)
    next p = elim (is_empty p.0) [
      | true ↦ some out
      | false ↦ then_break (break_file fuel p.1 50) (add_broken out (break_line 50 p.0))
    ]

-- `breakLines` at 50, of a file made of lines of less than 254 bytes: each place that is copied from
-- is inside the line's buffer, the texts fit in `brokenLine` and in `buf`, and each line is written
-- with a newline after every 50 of its characters, its own newline included.
pub break_lines-all_broken :
    (ls : List (List ℕ)) → AreLines ls → break_lines (text_of ls) 50 ≡ some (all_broken ls)
unfolding break_lines
break_lines-all_broken ls h =
    break_file-all_broken (length (text_of ls) + 1) ls [] h (omega (arith, length-text_of ls))
