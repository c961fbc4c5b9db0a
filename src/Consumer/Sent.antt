-- ===== src/Consumer/Sent.antt =====
-- lab05/src/producer.c and lab05/src/consumer.c: a file that is sent in pieces and put together again.
use agh_sem4_sysopy.Common.{
  ℕ, zero, suc, ◌+◌, ◌^◌, ◌<◌, ◌≡◌, refl, ap, ◌∙◌, List, [], ◌∷◌, ◌++◌, arith, ==_refl, length,
  length-drop, take, drop, get_or,
}
use agh_sem4_sysopy.Libc.Numbers.{decimal}
use agh_sem4_sysopy.Consumer.{separator, produce_rounds, produce, consume}
use agh_sem4_sysopy.Consumer.Rows.{file_of}
use agh_sem4_sysopy.Consumer.Received.{
  IsText, Entry, fifo_of, AreEntries, received, texts_for, consume-received,
}

-- The records of a file, each with m + 1 bytes or what is left.
unfoldable pub pieces : ℕ → ℕ → ℕ → List ℕ → List Entry
pieces zero m i file = []
pieces (suc fuel) m i [] = []
pieces (suc fuel) m i (c ∷ cs) =
    record { row = i; first = c; others = take m cs } ∷ pieces fuel m i (drop m cs)

produce_rounds-pieces :
    (fuel m i : ℕ) (file : List ℕ)
    → produce_rounds fuel (suc m) (decimal (suc i)) file ≡ fifo_of (pieces fuel m i file)
unfolding produce_rounds fifo_of pieces
produce_rounds-pieces zero m i file = refl
produce_rounds-pieces (suc fuel) m i [] = refl
produce_rounds-pieces (suc fuel) m i (c ∷ cs) =
    ap (λ t. (decimal (suc i) ++ (separator ∷ (c ∷ (take m cs ++ (separator ∷ []))))) ++ t)
      (produce_rounds-pieces fuel m i (drop m cs))

take-drop : (n : ℕ) (xs : List ℕ) → take n xs ++ drop n xs ≡ xs
take-drop zero xs = refl
take-drop (suc n) [] = refl
take-drop (suc n) (x ∷ xs) = ap (λ t. x ∷ t) (take-drop n xs)

texts_for-pieces :
    (fuel m i : ℕ) (file : List ℕ) → length file < fuel → texts_for i (pieces fuel m i file) ≡ file
unfolding texts_for pieces
texts_for-pieces zero m i file h = elim h [ ]
texts_for-pieces (suc fuel) m i [] h = refl
texts_for-pieces (suc fuel) m i (c ∷ cs) h =
    let ih = texts_for-pieces fuel m i (drop m cs) (omega (arith, length-drop m cs, h)) in
    rw (==_refl i, ih) (ap (λ t. c ∷ t) (take-drop m cs))

take-IsText : (n : ℕ) (xs : List ℕ) → IsText xs → IsText (take n xs)
take-IsText zero xs h = tt
take-IsText (suc n) [] h = tt
take-IsText (suc n) (x ∷ xs) h = (h.0, h.1, take-IsText n xs h.2)

drop-IsText : (n : ℕ) (xs : List ℕ) → IsText xs → IsText (drop n xs)
drop-IsText zero xs h = h
drop-IsText (suc n) [] h = tt
drop-IsText (suc n) (x ∷ xs) h = drop-IsText n xs h.2

pieces-AreEntries :
    (fuel m i : ℕ) (file : List ℕ)
    → suc i < 2 ^ 31
    → IsText file
    → AreEntries (pieces fuel m i file)
unfolding pieces
pieces-AreEntries zero m i file l h = tt
pieces-AreEntries (suc fuel) m i [] l h = tt
pieces-AreEntries (suc fuel) m i (c ∷ cs) l h = (
  l,
  (h.0, h.1, take-IsText m cs h.2),
  pieces-AreEntries fuel m i (drop m cs) l (drop-IsText m cs h.2),
)

-- A file without separators and terminators, sent by one producer a positive number of bytes at a time
-- under a row number that fits in an int: in the consumer's file the row holds the file.
pub consume-produce :
    (m i : ℕ) (file : List ℕ)
    → suc i < 2 ^ 31
    → IsText file
    → (rows : List (List ℕ)) × ((consume (produce (suc m) (decimal (suc i)) file) []).file
        ≡ file_of rows)
      × (get_or rows i [] ≡ file)
unfolding produce
consume-produce m i file l h =
    let es = pieces (length file + 1) m i file in
    let r = consume-received es (pieces-AreEntries (length file + 1) m i file l h) in
    (
      received es [],
      ap (λ fifo. (consume fifo []).file) (produce_rounds-pieces (length file + 1) m i file)
          ∙ ap (λ s. s.file) r.0,
      r.1 i ∙ texts_for-pieces (length file + 1) m i file (omega arith),
    )
