-- ===== src/Consumer/Rows.antt =====
-- lab05/src/consumer.c: `writeaddline` as an operation on rows of text.
use mathlib.Core.List.{append-nil, append_assoc}
use agh_sem4_sysopy.Common.{
  ℕ, zero, suc, ◌+◌, ◌-◌, ◌≤◌, ◌<◌, ◌≡◌, refl, sym, ap, ◌∙◌, Bool, true, false, ◌||◌, List, [], ◌∷◌,
  ◌++◌, arith, ◌==◌, length, length-append, length-replicate, take, drop, replicate,
}
use agh_sem4_sysopy.Common.Int.{pos}
use agh_sem4_sysopy.Consumer.{newline, overwrite, Store, offset, add_at, add_len, writeaddline}

-- The file of the rows: each stands behind a newline.
unfoldable pub file_of : List (List ℕ) → List ℕ
file_of [] = []
file_of (r ∷ rs) = newline ∷ (r ++ file_of rs)

-- The text at the end of the row `i`, counted from 0.
unfoldable pub append_at : ℕ → List ℕ → List (List ℕ) → List (List ℕ)
append_at i text [] = []
append_at zero text (r ∷ rs) = (r ++ text) ∷ rs
append_at (suc i) text (r ∷ rs) = r ∷ append_at i text rs

-- Rows that are missing are there first, empty.
abbrev pub with_rows : ℕ → List (List ℕ) → List (List ℕ)
with_rows n rows = rows ++ replicate (n - length rows) []

-- The lengths of the rows, and a row behind them.
unfoldable pub lens : List (List ℕ) → List ℕ
lens [] = 0 ∷ []
lens (r ∷ rs) = length r ∷ lens rs

take-past : (r : List ℕ) (q : ℕ) (f : List ℕ) → take (length r + q) (r ++ f) ≡ r ++ take q f
take-past [] q f = ap (λ n. take n f) (omega arith)
take-past (c ∷ cs) q f =
    let e : suc (length cs) + q ≡ suc (length cs + q) = omega arith in
    ap (λ n. take n (c ∷ (cs ++ f))) e ∙ ap (λ t. c ∷ t) (take-past cs q f)

drop-past : (r : List ℕ) (q : ℕ) (f : List ℕ) → drop (length r + q) (r ++ f) ≡ drop q f
drop-past [] q f = ap (λ n. drop n f) (omega arith)
drop-past (c ∷ cs) q f =
    let e : suc (length cs) + q ≡ suc (length cs + q) = omega arith in
    ap (λ n. drop n (c ∷ (cs ++ f))) e ∙ drop-past cs q f

-- The text is put in at the place that the lengths of the rows give.
insert-append_at :
    (i : ℕ) (text : List ℕ) (rows : List (List ℕ))
    → i < length rows
    → let place = offset (suc i) (lens rows) + suc i in
      take place (file_of rows) ++ (text ++ drop place (file_of rows))
      ≡ file_of (append_at i text rows)
unfolding offset lens file_of append_at
insert-append_at i text [] h = elim h [ ]
insert-append_at zero text (r ∷ rs) h =
    let e : length r + 0 + 1 ≡ suc (length r + 0) = omega arith in
    ap (λ n. take n (file_of (r ∷ rs)) ++ (text ++ drop n (file_of (r ∷ rs)))) e
    ∙ rw (take-past r 0 (file_of rs), drop-past r 0 (file_of rs), append-nil r)
        (ap (λ t. newline ∷ t) (sym (append_assoc r text (file_of rs))))
insert-append_at (suc i) text (r ∷ rs) h =
    let f = file_of rs in
    let q = offset (suc i) (lens rs) + suc i in
    let e : length r + offset (suc i) (lens rs) + suc (suc i) ≡ suc (length r + q) = omega arith in
    ap (λ n. take n (file_of (r ∷ rs)) ++ (text ++ drop n (file_of (r ∷ rs)))) e
    ∙ rw (take-past r q f, drop-past r q f)
        (ap (λ t. newline ∷ t)
          (append_assoc r (take q f) (text ++ drop q f)
            ∙ ap (λ t. r ++ t) (insert-append_at i text rs (omega (arith, h)))))

add_at-append_at :
    (i : ℕ) (text : List ℕ) (rows : List (List ℕ))
    → i < length rows
    → add_at i (length text) (lens rows) ≡ lens (append_at i text rows)
unfolding add_at lens append_at
add_at-append_at i text [] h = elim h [ ]
add_at-append_at zero text (r ∷ rs) h = ap (λ n. n ∷ lens rs) (sym (length-append r text))
add_at-append_at (suc i) text (r ∷ rs) h =
    ap (λ l. length r ∷ l) (add_at-append_at i text rs (omega (arith, h)))

length-file_of-append_at :
    (i : ℕ) (text : List ℕ) (rows : List (List ℕ))
    → i < length rows
    → length (file_of (append_at i text rows)) ≡ length (file_of rows) + length text
unfolding file_of append_at
length-file_of-append_at i text [] h = elim h [ ]
length-file_of-append_at zero text (r ∷ rs) h = omega (
  arith,
  length-append (r ++ text) (file_of rs),
  length-append r text,
  length-append r (file_of rs),
)
length-file_of-append_at (suc i) text (r ∷ rs) h = omega (
  arith,
  length-append r (file_of rs),
  length-append r (file_of (append_at i text rs)),
  length-file_of-append_at i text rs (omega (arith, h)),
)

file_of-empty_rows :
    (k : ℕ) (rows : List (List ℕ))
    → file_of rows ++ replicate k newline ≡ file_of (rows ++ replicate k [])
unfolding file_of
file_of-empty_rows zero [] = refl
file_of-empty_rows (suc k) [] = ap (λ t. newline ∷ t) (file_of-empty_rows k [])
file_of-empty_rows k (r ∷ rs) =
    ap (λ t. newline ∷ t)
      (append_assoc r (file_of rs) (replicate k newline)
        ∙ ap (λ t. r ++ t) (file_of-empty_rows k rs))

lens-empty_rows :
    (k : ℕ) (rows : List (List ℕ)) → lens rows ++ replicate k 0 ≡ lens (rows ++ replicate k [])
unfolding lens
lens-empty_rows zero [] = refl
lens-empty_rows (suc k) [] = ap (λ t. 0 ∷ t) (lens-empty_rows k [])
lens-empty_rows k (r ∷ rs) = ap (λ t. length r ∷ t) (lens-empty_rows k rs)

pub length-lens : (rows : List (List ℕ)) → length (lens rows) ≡ suc (length rows)
unfolding lens
length-lens [] = refl
length-lens (r ∷ rs) = ap suc (length-lens rs)

pub overwrite-all : (old bytes : List ℕ) → length old ≤ length bytes → overwrite old bytes ≡ bytes
overwrite-all old bytes h = ap (λ t. bytes ++ t) (drop_all (length bytes) old h) ∙ append-nil bytes
  where
    drop_all : (n : ℕ) (xs : List ℕ) → length xs ≤ n → drop n xs ≡ []
    drop_all zero [] h = refl
    drop_all zero (x ∷ xs) h = elim h [ ]
    drop_all (suc n) [] h = refl
    drop_all (suc n) (x ∷ xs) h = drop_all n xs (omega (arith, h))

-- The files and the lengths of the rows.
abbrev pub store_of : List (List ℕ) → List ℕ → Bool → Store
store_of rows tmp outside = record {
  file = file_of rows;
  tmp = tmp;
  len = lens rows;
  outside = outside;
}

abbrev pub written_to : ℕ → List ℕ → List (List ℕ) → List (List ℕ)
written_to i text rows = append_at i text (with_rows (suc i) rows)

-- `writeaddline` puts the text at the end of its row, numbered from 1, and keeps the lengths of the rows;
-- rows that are missing become empty ones. The temporary file was not longer than the file.
pub writeaddline-written_to :
    (i : ℕ) (text : List ℕ) (rows : List (List ℕ)) (tmp : List ℕ) (outside : Bool)
    → length tmp ≤ length (file_of rows)
    → writeaddline text (pos (suc i)) (store_of rows tmp outside)
      ≡ store_of (written_to i text rows) (file_of (written_to i text rows)) outside
unfolding writeaddline add_len
writeaddline-written_to i text rows tmp outside h =
    let k = suc i - length rows in
    let all = with_rows (suc i) rows in
    let new = file_of (append_at i text all) in
    let m : suc (suc i) - length (lens rows) ≡ k = omega (arith, length-lens rows) in
    let l : i < length all =
      omega (arith, length-append rows (replicate k []), length-replicate {A = List ℕ} k []) in
    let n = length-file_of-append_at i text all l in
    let grown : length (file_of rows) ≤ length (file_of all) = omega (
      arith,
      ap length (file_of-empty_rows k rows),
      length-append (file_of rows) (replicate k newline),
    ) in
    ap (λ j. from_parts (file_of rows ++ replicate j newline) (lens rows ++ replicate j 0)) m
    ∙ ap (λ f. from_parts f (lens rows ++ replicate k 0)) (file_of-empty_rows k rows)
    ∙ ap (from_parts (file_of all)) (lens-empty_rows k rows)
    ∙ ap (λ c. from_copy (overwrite tmp c)) (insert-append_at i text all l)
    ∙ ap from_copy (overwrite-all tmp new (omega arith))
    ∙ rw
        (
          overwrite-all (file_of all) new (omega arith),
          add_at-append_at i text all l,
          never outside,
        )
        refl
  where
    never : (b : Bool) → (b || suc i == 0) ≡ b
    never true = refl
    never false = ground arith

    from_copy : List ℕ → Store
    from_copy copy = record {
      file = overwrite (file_of (with_rows (suc i) rows)) copy;
      tmp = copy;
      len = add_at i (length text) (lens (with_rows (suc i) rows));
      outside = outside || suc i == 0;
    }

    from_parts : List ℕ → List ℕ → Store
    from_parts original len =
        let place = offset (suc i) len + suc i in
        let copy = overwrite tmp (take place original ++ (text ++ drop place original)) in
        record {
          file = overwrite original copy;
          tmp = copy;
          len = add_at i (length text) len;
          outside = outside || suc i == 0;
        }
