-- ===== src/Tools/Lines/Merged.antt =====
-- lab02/src/lib/src/lib_library.c: what `merge` writes, of files made of lines.
use mathlib.Core.List.{append-nil, append_assoc}
use agh_sem4_sysopy.Common.{
  ℕ, zero, suc, ◌+◌, ◌-◌, ◌≤◌, ◌<◌, ◌≡◌, refl, sym, ap, ◌∙◌, Bool, true, false, List, [], ◌∷◌, ◌++◌,
  arith, ◌==◌, length, length-append, replicate,
}
use agh_sem4_sysopy.Tools.Lines.{
  newline, max_line_len, fgetline, write_line, is_empty, first_half, second_half, merge_rounds,
  merge,
}

-- A line without its newline.
abbrev pub IsLine : List ℕ → Type 0
IsLine [] = Unit
IsLine (c ∷ cs) = ((c == newline) ≡ false) × ((c == 0) ≡ false) × IsLine cs

-- Lines that fit in the buffer with their newline and a terminator.
abbrev pub AreLines : List (List ℕ) → Type 0
AreLines [] = Unit
AreLines (l ∷ ls) = IsLine l × (length l < 254) × AreLines ls

-- The file of the lines.
unfoldable pub text_of : List (List ℕ) → List ℕ
text_of [] = []
text_of (l ∷ ls) = l ++ newline ∷ text_of ls

pub fgetline_lem :
    (l rest : List ℕ) → IsLine l → fgetline (l ++ newline ∷ rest) ≡ (l ++ newline ∷ [], rest)
unfolding fgetline
fgetline_lem [] rest h = refl
fgetline_lem (c ∷ cs) rest h = rw (h.0, h.1) (ap (λ p. (c ∷ p.0, p.1)) (fgetline_lem cs rest h.2))

-- A line as it is written.
abbrev pub written : List ℕ → List ℕ
written line = line ++ replicate (max_line_len - length line) 0

-- What is written once the first file has ended: each line twice, but only once in the round in which
-- its end is met.
unfoldable pub twice : List (List ℕ) → List ℕ
twice [] = []
twice (l ∷ ls) = written (l ++ newline ∷ []) ++ (written (l ++ newline ∷ []) ++ twice ls)

-- The lines in turn; then the rest of the second file, each line twice; or the next line of the first
-- file once, and its rest, each line twice, and a buffer of zeros.
unfoldable pub merged : List (List ℕ) → List (List ℕ) → List ℕ
unfolding twice
merged [] ms = twice ms
merged (l ∷ ls) [] = written (l ++ newline ∷ []) ++ (twice ls ++ written [])
merged (l ∷ ls) (m ∷ ms) =
    written (l ++ newline ∷ []) ++ (written (m ++ newline ∷ []) ++ merged ls ms)

pub is_empty-line : (l : List ℕ) → is_empty (l ++ newline ∷ []) ≡ false
is_empty-line [] = refl
is_empty-line (c ∷ cs) = refl

-- A line is read and written.
first_half-line :
    (l rest file2 line out : List ℕ) (e : Bool)
    → IsLine l
    → first_half (record {
      file1 = l ++ newline ∷ rest;
      file2 = file2;
      eof1 = false;
      eof2 = e;
      line = line;
      out = out;
    })
      ≡ record {
        file1 = rest;
        file2 = file2;
        eof1 = false;
        eof2 = e;
        line = l ++ newline ∷ [];
        out = out ++ written (l ++ newline ∷ []);
      }
unfolding first_half write_line
first_half-line l rest file2 line out e h = rw (fgetline_lem l rest h, is_empty-line l) refl

second_half-line :
    (l rest file1 line out : List ℕ) (e : Bool)
    → IsLine l
    → second_half (record {
      file1 = file1;
      file2 = l ++ newline ∷ rest;
      eof1 = e;
      eof2 = false;
      line = line;
      out = out;
    })
      ≡ record {
        file1 = file1;
        file2 = rest;
        eof1 = e;
        eof2 = false;
        line = l ++ newline ∷ [];
        out = out ++ written (l ++ newline ∷ []);
      }
unfolding second_half write_line
second_half-line l rest file1 line out e h = rw (fgetline_lem l rest h, is_empty-line l) refl

assoc3 : (a b c d : List ℕ) → ((a ++ b) ++ c) ++ d ≡ a ++ (b ++ (c ++ d))
assoc3 a b c d = append_assoc (a ++ b) c d ∙ append_assoc a b (c ++ d)

-- Once the first file has ended, the line is written again before the next.
first_ended :
    (fuel : ℕ) (ms : List (List ℕ)) (line out : List ℕ)
    → AreLines ms
    → length ms < fuel
    → (merge_rounds fuel (record {
      file1 = [];
      file2 = text_of ms;
      eof1 = true;
      eof2 = false;
      line = line;
      out = out;
    })).out
      ≡ out ++ (written line ++ twice ms)
unfolding merge_rounds text_of twice write_line first_half
first_ended zero ms line out h l = elim l [ ]
first_ended (suc zero) [] line out h l = ap (λ t. out ++ t) (sym (append-nil (written line)))
first_ended (suc (suc fuel)) [] line out h l = ap (λ t. out ++ t) (sym (append-nil (written line)))
first_ended (suc fuel) (m ∷ ms) line out h l =
    let ih =
      first_ended fuel ms (m ++ newline ∷ []) (out ++ written line ++ written (m ++ newline ∷ []))
        h.2 (omega arith) in
    let e = second_half-line m (text_of ms) [] line (out ++ written line) true h.0 in
    ap (λ s. (merge_rounds fuel s).out) e
    ∙ ih
    ∙ assoc3 out (written line) (written (m ++ newline ∷ [])) _

-- Once the second file has ended, the line that was read is written twice, at the end an empty one.
second_ended :
    (fuel : ℕ) (ls : List (List ℕ)) (line out : List ℕ)
    → AreLines ls
    → length ls < fuel
    → (merge_rounds fuel (record {
      file1 = text_of ls;
      file2 = [];
      eof1 = false;
      eof2 = true;
      line = line;
      out = out;
    })).out
      ≡ out ++ (twice ls ++ written [])
unfolding merge_rounds text_of twice write_line second_half
second_ended zero ls line out h l = elim l [ ]
second_ended (suc zero) [] line out h l = unfold first_half fgetline in refl
second_ended (suc (suc fuel)) [] line out h l = unfold first_half fgetline in refl
second_ended (suc fuel) (m ∷ ms) line out h l =
    let w = written (m ++ newline ∷ []) in
    let ih = second_ended fuel ms (m ++ newline ∷ []) ((out ++ w) ++ w) h.2 (omega arith) in
    let e = first_half-line m (text_of ms) [] line out true h.0 in
    ap (λ s. (merge_rounds fuel (second_half s)).out) e
    ∙ ih
    ∙ assoc3 out w w (twice ms ++ written [])
    ∙ ap (λ t. out ++ (w ++ t)) (sym (append_assoc w (twice ms) (written [])))
    ∙ ap (λ t. out ++ t) (sym (append_assoc w (w ++ twice ms) (written [])))

merge_rounds-merged :
    (fuel : ℕ) (ls ms : List (List ℕ)) (line out : List ℕ)
    → AreLines ls
    → AreLines ms
    → length ls + length ms + 1 < fuel
    → (merge_rounds fuel (record {
      file1 = text_of ls;
      file2 = text_of ms;
      eof1 = false;
      eof2 = false;
      line = line;
      out = out;
    })).out
      ≡ out ++ merged ls ms
unfolding merge_rounds merged text_of
merge_rounds-merged zero ls ms line out h k l = elim l [ ]
merge_rounds-merged (suc zero) [] [] line out h k l = sym (append-nil out)
merge_rounds-merged (suc (suc fuel)) [] [] line out h k l = sym (append-nil out)
merge_rounds-merged (suc fuel) [] (m ∷ ms) line out h k l =
    let w = written (m ++ newline ∷ []) in
    let e = second_half-line m (text_of ms) [] [] out true k.0 in
    ap (λ s. (merge_rounds fuel s).out) e
    ∙ first_ended fuel ms (m ++ newline ∷ []) (out ++ w) k.2 (omega arith)
    ∙ append_assoc out w (w ++ twice ms)
merge_rounds-merged (suc fuel) (x ∷ ls) [] line out h k l =
    let w = written (x ++ newline ∷ []) in
    let e = first_half-line x (text_of ls) [] line out false h.0 in
    ap (λ s. (merge_rounds fuel (second_half s)).out) e
    ∙ second_ended fuel ls [] (out ++ w) h.2 (omega arith)
    ∙ append_assoc out w (twice ls ++ written [])
merge_rounds-merged (suc fuel) (x ∷ ls) (m ∷ ms) line out h k l =
    let v = written (x ++ newline ∷ []) in
    let w = written (m ++ newline ∷ []) in
    let e = first_half-line x (text_of ls) (text_of (m ∷ ms)) line out false h.0 in
    let f = second_half-line m (text_of ms) (text_of ls) (x ++ newline ∷ []) (out ++ v) false k.0 in
    ap (λ s. (merge_rounds fuel (second_half s)).out) e
    ∙ ap (λ s. (merge_rounds fuel s).out) f
    ∙ merge_rounds-merged fuel ls ms (m ++ newline ∷ []) ((out ++ v) ++ w) h.2 k.2 (omega arith)
    ∙ assoc3 out v w (merged ls ms)

pub length-text_of : (ls : List (List ℕ)) → length ls ≤ length (text_of ls)
unfolding text_of
length-text_of [] = omega arith
length-text_of (l ∷ ls) = omega (arith, length-text_of ls, length-append l (newline ∷ text_of ls))

-- `merge` of two files made of lines of less than 254 bytes writes the lines in turn, the first file's before the second's, as
-- long as both have one; then the rest of the second file, each line twice, or the next line of the
-- first file once and its rest, each line twice, and a buffer of zeros.
pub merge-merged :
    (ls ms : List (List ℕ))
    → AreLines ls
    → AreLines ms
    → (merge (text_of ls) (text_of ms)).out ≡ merged ls ms
unfolding merge
merge-merged ls ms h k =
    merge_rounds-merged (length (text_of ls) + length (text_of ms) + 2) ls ms [] [] h k
      (omega (arith, length-text_of ls, length-text_of ms))
