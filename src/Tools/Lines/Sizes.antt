-- ===== src/Tools/Lines/Sizes.antt =====
-- lab02/src/lib/src/lib_library.c: `stringSize` of a line and of a text that has no newline.
use agh_sem4_sysopy.Common.{ℕ, suc, ◌≡◌, refl, ap, List, [], ◌∷◌, ◌++◌, length}
use agh_sem4_sysopy.Tools.Lines.{newline, string_size}
use agh_sem4_sysopy.Tools.Lines.Merged.{IsLine}

pub string_size-line :
    (l : List ℕ) → IsLine l → string_size (l ++ newline ∷ []) ≡ length (l ++ newline ∷ [])
unfolding string_size
string_size-line [] h = refl
string_size-line (c ∷ cs) h = rw h.0 (ap suc (string_size-line cs h.2))

pub string_size-text : (r : List ℕ) → IsLine r → string_size r ≡ length r
unfolding string_size
string_size-text [] h = refl
string_size-text (c ∷ cs) h = rw h.0 (ap suc (string_size-text cs h.2))
