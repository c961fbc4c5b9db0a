-- ===== src/Consumer/Received.antt =====
-- lab05/src/consumer.c: the consumer on a FIFO that holds records, in whatever order the producers wrote
-- them.
use mathlib.Core.List.{append-nil, append_assoc}
use agh_sem4_sysopy.Common.{
  ℕ, zero, suc, ◌+◌, ◌-◌, ◌^◌, ◌≤◌, ◌<◌, ◌≡◌, refl, sym, ap, ◌∙◌, Bool, true, false, ◌||◌, List, [],
  ◌∷◌, ◌++◌, arith, ◌==◌, if◌then◌else◌, length, length-append, length-replicate, replicate, get_or,
}
use agh_sem4_sysopy.Common.Int.{pos}
use agh_sem4_sysopy.Libc.Numbers.{
  decimal, strtol, to_int, AllDigits, decimal-AllDigits, print_int, strtol-print_int,
}
use agh_sem4_sysopy.Consumer.{
  separator, Store, offset, add_len, writeaddline, readtosep, c_text, is_empty, consume_rounds,
  consume,
}
use agh_sem4_sysopy.Consumer.Rows.{
  file_of, lens, append_at, with_rows, store_of, written_to, writeaddline-written_to, overwrite-all,
  length-lens,
}

-- A text without separators and terminators.
abbrev pub IsText : List ℕ → Type 0
IsText [] = Unit
IsText (c ∷ cs) = ((c == separator) ≡ false) × ((c == 0) ≡ false) × IsText cs

-- A row, numbered from 0 here and from 1 in the bytes, and a text that is not empty.
pub record Entry : Type 0 where
  pub row : ℕ
  pub first : ℕ
  pub others : List ℕ

abbrev pub text_of : Entry → List ℕ
text_of e = e.first ∷ e.others

abbrev pub record_of : Entry → List ℕ
record_of e = decimal (suc e.row) ++ (separator ∷ (text_of e ++ (separator ∷ [])))

unfoldable pub fifo_of : List Entry → List ℕ
fifo_of [] = []
fifo_of (e ∷ es) = record_of e ++ fifo_of es

abbrev pub AreEntries : List Entry → Type 0
AreEntries [] = Unit
AreEntries (e ∷ es) = (suc e.row < 2 ^ 31) × IsText (text_of e) × AreEntries es

unfoldable pub received : List Entry → List (List ℕ) → List (List ℕ)
received [] rows = rows
received (e ∷ es) rows = received es (written_to e.row (text_of e) rows)

readtosep-separator : (t rest : List ℕ) → IsText t → readtosep (t ++ (separator ∷ rest)) ≡ (t, rest)
unfolding readtosep
readtosep-separator [] rest h = refl
readtosep-separator (c ∷ cs) rest h =
    rw h.0 (ap (λ p. (c ∷ p.0, p.1)) (readtosep-separator cs rest h.2))

c_text_of : (t : List ℕ) → IsText t → c_text t ≡ t
unfolding c_text
c_text_of [] h = refl
c_text_of (c ∷ cs) h = rw h.1 (ap (λ t. c ∷ t) (c_text_of cs h.2))

digits-IsText : (ds : List ℕ) → AllDigits ds → IsText ds
digits-IsText [] h = tt
digits-IsText (d ∷ ds) h = (ground (arith, h.0), ground (arith, h.0), digits-IsText ds h.1)

row_number : (n : ℕ) → n < 2 ^ 31 → to_int (strtol (decimal n)) ≡ pos n
unfolding print_int
row_number n h =
    ap (λ t. to_int (strtol t)) (sym (append-nil (decimal n))) ∙ strtol-print_int (pos n) [] h tt

-- At the end of the FIFO the row is 0 and the text empty.
writeaddline-nothing :
    (rows : List (List ℕ)) (tmp : List ℕ) (outside : Bool)
    → length tmp ≤ length (file_of rows)
    → writeaddline [] (pos 0) (store_of rows tmp outside) ≡ store_of rows (file_of rows) true
unfolding writeaddline offset add_len lens
writeaddline-nothing rows tmp outside h =
    let m : 1 - length (lens rows) ≡ 0 = omega (arith, length-lens rows) in
    rw
      (
        m,
        append-nil (file_of rows),
        append-nil (lens rows),
        overwrite-all tmp (file_of rows) h,
        overwrite-all (file_of rows) (file_of rows) (omega arith),
        always outside,
      )
      refl
  where
    always : (b : Bool) → (b || true) ≡ true
    always true = refl
    always false = refl

no_number : to_int (strtol []) ≡ pos 0
unfolding strtol to_int
no_number = refl

consume_rounds-received :
    (fuel : ℕ) (es : List Entry) (rows : List (List ℕ)) (tmp : List ℕ) (outside : Bool)
    → AreEntries es
    → length es < fuel
    → length tmp ≤ length (file_of rows)
    → consume_rounds fuel (fifo_of es) (store_of rows tmp outside)
      ≡ store_of (received es rows) (file_of (received es rows)) true
unfolding consume_rounds fifo_of received readtosep
consume_rounds-received zero es rows tmp outside h f l = elim f [ ]
consume_rounds-received (suc fuel) [] rows tmp outside h f l =
    ap (λ z. writeaddline [] z (store_of rows tmp outside)) no_number
    ∙ writeaddline-nothing rows tmp outside l
consume_rounds-received (suc fuel) (e ∷ es) rows tmp outside h f l =
    let t = text_of e in
    let more = fifo_of es in
    let number = decimal (suc e.row) in
    let next = written_to e.row t rows in
    let d =
      readtosep-separator number (t ++ (separator ∷ more))
        (digits-IsText number (decimal-AllDigits (suc e.row))) in
    ap from_fifo (
      append_assoc number _ more
      ∙ ap (λ x. number ++ (separator ∷ x)) (append_assoc t (separator ∷ []) more))
    ∙ ap from_bytes d
    ∙ ap (from_text number) (readtosep-separator t more h.1)
    ∙ ap
        (λ x.
          consume_rounds fuel more
            (writeaddline x (to_int (strtol number)) (store_of rows tmp outside)))
        (c_text_of t h.1)
    ∙ ap (λ x. consume_rounds fuel more (writeaddline t x (store_of rows tmp outside)))
        (row_number (suc e.row) h.0)
    ∙ ap (consume_rounds fuel more) (writeaddline-written_to e.row t rows tmp outside l)
    ∙ consume_rounds-received fuel es next (file_of next) outside h.2 (omega (arith, f))
        (omega arith)
  where
    from_text : List ℕ → List ℕ × List ℕ → Store
    from_text bytes p =
        let written =
          writeaddline (c_text p.0) (to_int (strtol bytes)) (store_of rows tmp outside) in
        elim (is_empty p.0) [ true ↦ written | false ↦ consume_rounds fuel p.1 written ]

    from_bytes : List ℕ × List ℕ → Store
    from_bytes p = from_text p.0 (readtosep p.1)

    from_fifo : List ℕ → Store
    from_fifo fifo = from_bytes (readtosep fifo)

length-fifo_of : (es : List Entry) → length es ≤ length (fifo_of es)
unfolding fifo_of
length-fifo_of [] = omega arith
length-fifo_of (e ∷ es) = omega (
  arith,
  length-append (record_of e) (fifo_of es),
  length-append (decimal (suc e.row)) (separator ∷ (text_of e ++ (separator ∷ []))),
  length-fifo_of es,
)

-- The texts for a row, in the order of the records.
unfoldable pub texts_for : ℕ → List Entry → List ℕ
texts_for i [] = []
texts_for i (e ∷ es) = (if e.row == i then text_of e else []) ++ texts_for i es

get_or-append_at :
    (i j : ℕ) (text : List ℕ) (rows : List (List ℕ))
    → i < length rows
    → get_or (append_at i text rows) j [] ≡ get_or rows j [] ++ (if i == j then text else [])
unfolding append_at
get_or-append_at i j text [] h = elim h [ ]
get_or-append_at zero zero text (r ∷ rs) h = refl
get_or-append_at zero (suc j) text (r ∷ rs) h =
    let e : (0 == suc j) ≡ false = ground arith in rw e (sym (append-nil (get_or rs j [])))
get_or-append_at (suc i) zero text (r ∷ rs) h =
    let e : (suc i == 0) ≡ false = ground arith in rw e (sym (append-nil r))
get_or-append_at (suc i) (suc j) text (r ∷ rs) h =
    let e : (suc i == suc j) ≡ (i == j) = ground arith in
    get_or-append_at i j text rs (omega (arith, h))
    ∙ ap (λ b. get_or rs j [] ++ (if b then text else [])) (sym e)

get_or-empty_rows :
    (k j : ℕ) (rows : List (List ℕ)) → get_or (rows ++ replicate k []) j [] ≡ get_or rows j []
get_or-empty_rows zero j [] = refl
get_or-empty_rows (suc k) zero [] = refl
get_or-empty_rows (suc k) (suc j) [] = get_or-empty_rows k j []
get_or-empty_rows k zero (r ∷ rs) = refl
get_or-empty_rows k (suc j) (r ∷ rs) = get_or-empty_rows k j rs

get_or-received :
    (es : List Entry) (i : ℕ) (rows : List (List ℕ))
    → get_or (received es rows) i [] ≡ get_or rows i [] ++ texts_for i es
unfolding received texts_for
get_or-received [] i rows = sym (append-nil (get_or rows i []))
get_or-received (e ∷ es) i rows =
    let k = suc e.row - length rows in
    let l : e.row < length (with_rows (suc e.row) rows) =
      omega (arith, length-append rows (replicate k []), length-replicate {A = List ℕ} k []) in
    let mine = if e.row == i then text_of e else [] in
    get_or-received es i (written_to e.row (text_of e) rows)
    ∙ ap (λ t. t ++ texts_for i es)
        (get_or-append_at e.row i (text_of e) (with_rows (suc e.row) rows) l
          ∙ ap (λ t. t ++ mine) (get_or-empty_rows k i rows))
    ∙ append_assoc (get_or rows i []) mine (texts_for i es)

-- Records with row numbers that fit in an int, and with texts that are not empty and hold no separator
-- and no terminator, in any order, and a temporary file that was empty: the consumer ends; its file holds
-- the rows behind newlines, each row the texts of its records in their order; the lengths are those of
-- the rows; the last round reads len[-1].
pub consume-received :
    (es : List Entry)
    → AreEntries es
    → (consume (fifo_of es) [] ≡ store_of (received es []) (file_of (received es [])) true)
      × ((i : ℕ) → get_or (received es []) i [] ≡ texts_for i es)
unfolding consume file_of lens
consume-received es h = (
  consume_rounds-received (length (fifo_of es) + 1) es [] [] false h
      (omega (arith, length-fifo_of es)) (omega arith),
  λ i. get_or-received es i [],
)
