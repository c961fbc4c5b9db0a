-- ===== src/Tools/Lines/Kept.antt =====
-- lab02/src/lib/src/lib_library.c: what `filterWithSign` writes, of a file made of lines.
use mathlib.Core.List.{append-nil, append_assoc}
use agh_sem4_sysopy.Common.{
  ℕ, zero, suc, ◌+◌, ◌<◌, ◌≡◌, refl, sym, ap, ◌∙◌, Bool, true, false, List, [], ◌∷◌, ◌++◌, arith,
  if◌then◌else◌, length,
}
use agh_sem4_sysopy.Tools.Lines.{
  newline, fgetline, write_line, is_empty, strchr, filter_rounds, filter_with_sign,
}
use agh_sem4_sysopy.Tools.Lines.Merged.{
  AreLines, text_of, fgetline_lem, is_empty-line, length-text_of, written,
}

-- The lines that hold the sign.
unfoldable pub filtered : List (List ℕ) → ℕ → List ℕ
unfolding strchr
filtered [] sign = []
filtered (l ∷ ls) sign =
    (if strchr (l ++ newline ∷ []) sign then written (l ++ newline ∷ []) else [])
    ++ filtered ls sign

filter_rounds-filtered :
    (fuel : ℕ) (ls : List (List ℕ)) (sign : ℕ) (out : List ℕ)
    → AreLines ls
    → length ls < fuel
    → filter_rounds fuel (text_of ls) sign out ≡ out ++ filtered ls sign
unfolding filter_rounds text_of filtered fgetline write_line
filter_rounds-filtered zero ls sign out h l = elim l [ ]
filter_rounds-filtered (suc fuel) [] sign out h l = sym (append-nil out)
filter_rounds-filtered (suc fuel) (m ∷ ls) sign out h l =
    let line = m ++ newline ∷ [] in
    let kept = if strchr line sign then write_line line out else out in
    ap next (fgetline_lem m (text_of ls) h.0)
    ∙ rw (is_empty-line m) refl
    ∙ filter_rounds-filtered fuel ls sign kept h.2 (omega arith)
    ∙ chosen (strchr line sign) (filtered ls sign)
  where
    next : List ℕ × List ℕ → List ℕ
    next p = elim (is_empty p.0) [
      | true ↦ out
      | false ↦ filter_rounds fuel p.1 sign (if strchr p.0 sign then write_line p.0 out else out)
    ]

    chosen :
        (b : Bool) (more : List ℕ)
        → (if b then write_line (m ++ newline ∷ []) out else out) ++ more
          ≡ out ++ ((if b then written (m ++ newline ∷ []) else []) ++ more)
    chosen true more = append_assoc out (written (m ++ newline ∷ [])) more
    chosen false more = refl

-- `filterWithSign` of a file made of lines of less than 254 bytes writes the buffers of those that hold the sign, in order.
pub filter_with_sign-filtered :
    (ls : List (List ℕ)) (sign : ℕ)
    → AreLines ls
    → filter_with_sign (text_of ls) sign ≡ filtered ls sign
unfolding filter_with_sign
filter_with_sign-filtered ls sign h =
    filter_rounds-filtered (length (text_of ls) + 1) ls sign [] h (omega (arith, length-text_of ls))
