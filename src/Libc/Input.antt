-- ===== src/Libc/Input.antt =====
-- fgets and strtok, over the bytes of a text file.
use agh_sem4_sysopy.Common.{
  ℕ, zero, suc, ◌+◌, ◌-◌, ◌≤◌, ◌<◌, ◌≡◌, refl, sym, ap, ◌∙◌, inl, inr, Bool, true, false, List, [],
  ◌∷◌, ◌++◌, arith, ◌==◌, eq_of_==, ltb, ◌&&◌, length, Bool-cases, if◌then◌else◌,
}
use mathlib.Core.List.{append-nil, append_assoc}

-- The line that `fgets` stores where `n` characters fit, and the bytes that it leaves. It stores
-- nothing, and gives NULL, at the end of the file.
unfoldable pub fgets_line : ℕ → List ℕ → List ℕ × List ℕ
fgets_line zero cs = ([], cs)
fgets_line (suc n) [] = ([], [])
fgets_line (suc n) (c ∷ cs) =
    if c == 10 then (c ∷ [], cs) else (let (l, r) = fgets_line n cs in (c ∷ l, r))

-- A token that has ended, before the tokens that follow.
abbrev pub ended : List ℕ → List (List ℕ) → List (List ℕ)
ended [] ts = ts
ended (c ∷ cs) ts = (c ∷ cs) ∷ ts

-- The tokens that a first call of `strtok` and the calls on NULL give; `token` is what the current
-- one has so far.
unfoldable pub tokens : (ℕ → Bool) → List ℕ → List ℕ → List (List ℕ)
tokens delim token [] = ended token []
tokens delim token (c ∷ cs) =
    if delim c then ended token (tokens delim [] cs) else tokens delim (token ++ c ∷ []) cs

-- A text whose lines fit where `room` characters do, of which the first has `left` yet.
unfoldable pub lines_fit : (room left : ℕ) → List ℕ → Bool
lines_fit room left [] = true
lines_fit room left (c ∷ cs) =
    ltb 0 left && (if c == 10 then lines_fit room room cs else lines_fit room (left - 1) cs)

module _ (delim : ℕ → Bool) where
  -- No character of the list ends a token.
  abbrev pub IsToken : List ℕ → Type 0
  IsToken [] = Unit
  IsToken (c ∷ cs) = (delim c ≡ false) × IsToken cs

  ended-append : (t : List ℕ) (xs ys : List (List ℕ)) → ended t (xs ++ ys) ≡ ended t xs ++ ys
  ended-append [] xs ys = refl
  ended-append (c ∷ cs) xs ys = refl

  -- Tokens do not reach over a character that ends them.
  pub tokens-append :
      (token xs ys : List ℕ) (c : ℕ)
      → delim c ≡ true
      → tokens delim token (xs ++ c ∷ ys) ≡ tokens delim token (xs ++ c ∷ []) ++ tokens delim [] ys
  unfolding tokens
  tokens-append token [] ys c h = rw h (ended-append token [] (tokens delim [] ys))
  tokens-append token (x ∷ xs) ys c h = elim (Bool-cases (delim x)) [
    | inl e ↦ rw e (
        ap (ended token) (tokens-append [] xs ys c h)
        ∙ ended-append token (tokens delim [] (xs ++ c ∷ [])) (tokens delim [] ys))
    | inr e ↦ rw e (tokens-append (token ++ x ∷ []) xs ys c h)
  ]

  -- A token, the character that ends it, and the rest.
  pub tokens-token :
      (t word rest : List ℕ) (x c : ℕ)
      → IsToken word
      → delim c ≡ true
      → tokens delim (x ∷ t) (word ++ c ∷ rest) ≡ (x ∷ t ++ word) ∷ tokens delim [] rest
  unfolding tokens
  tokens-token t [] rest x c w h =
      rw h (ap (λ k. (x ∷ k) ∷ tokens delim [] rest) (sym (append-nil t)))
  tokens-token t (y ∷ ys) rest x c w h = rw (w.0) (
      tokens-token (t ++ y ∷ []) ys rest x c w.1 h
      ∙ ap (λ k. (x ∷ k) ∷ tokens delim [] rest) (append_assoc t (y ∷ []) ys))

module _ (delim : ℕ → Bool) where
  pub IsToken-append :
      (xs ys : List ℕ) → IsToken delim xs → IsToken delim ys → IsToken delim (xs ++ ys)
  IsToken-append [] ys h k = k
  IsToken-append (x ∷ xs) ys h k = (h.0, IsToken-append xs ys h.1 k)

  -- A token that the end of the text ends.
  pub tokens-last :
      (t word : List ℕ) (x : ℕ)
      → IsToken delim word
      → tokens delim (x ∷ t) word ≡ (x ∷ t ++ word) ∷ []
  unfolding tokens
  tokens-last t [] x w = ap (λ k. (x ∷ k) ∷ []) (sym (append-nil t))
  tokens-last t (y ∷ ys) x w =
      rw (w.0)
        (tokens-last (t ++ y ∷ []) ys x w.1 ∙ ap (λ k. (x ∷ k) ∷ []) (append_assoc t (y ∷ []) ys))

module _ (delim : ℕ → Bool) where
  -- The tokens of a line, unless `fgets` gave NULL, and what is read after it.
  unfoldable pub read_line : List ℕ → List (List ℕ) → List (List ℕ)
  unfolding tokens
  read_line [] more = []
  read_line (c ∷ cs) more = tokens delim [] (c ∷ cs) ++ more

  -- What the loop over the lines of a text reads. The fuel is the length of the text, since each
  -- round but the last takes a byte.
  unfoldable pub line_tokens : (room fuel : ℕ) → List ℕ → List (List ℕ)
  unfolding fgets_line read_line
  line_tokens room zero text = []
  line_tokens room (suc fuel) text =
      read_line (fgets_line room text).0 (line_tokens room fuel (fgets_line room text).1)

  read_line-some :
      (l : List ℕ) (more : List (List ℕ))
      → 1 ≤ length l
      → read_line l more ≡ tokens delim [] l ++ more
  unfolding read_line
  read_line-some [] more h = absurd (omega arith)
  read_line-some (c ∷ cs) more h = refl

  first_line :
      (room left : ℕ) (text : List ℕ)
      → lines_fit room left text ≡ true
      → delim 10 ≡ true
      → (token : List ℕ)
      → let (l, rest) = fgets_line left text in
        (lines_fit room room rest ≡ true)
        × (length l + length rest ≡ length text)
        × (tokens delim token text ≡ tokens delim token l ++ tokens delim [] rest)
  unfolding fgets_line lines_fit tokens
  first_line room zero [] h d token = (refl, refl, sym (append-nil (ended token [])))
  first_line room (suc n) [] h d token = (refl, refl, sym (append-nil (ended token [])))
  first_line room zero (c ∷ cs) h d token = absurd (ground arith)
  first_line room (suc n) (c ∷ cs) h d token = elim (Bool-cases (c == 10)) [
    | inl e ↦
        let h' : lines_fit room room cs ≡ true = ground arith in
        let d' : delim c ≡ true = ap delim (eq_of_== c 10 e) ∙ d in
        rw (e, d') (h', omega arith, ended-append delim token [] (tokens delim [] cs))
    | inr e ↦
        let h' : lines_fit room n cs ≡ true = ground arith in
        elim (Bool-cases (delim c)) [
          | inl g ↦
              let r = first_line room n cs h' d [] in
              rw (e, g)
                (
                  r.0,
                  omega (arith, r.1),
                  ap (ended token) r.2
                      ∙ ended-append delim token (tokens delim [] (fgets_line n cs).0)
                          (tokens delim [] (fgets_line n cs).1),
                )
          | inr g ↦
              let r = first_line room n cs h' d (token ++ c ∷ []) in
              rw (e, g) (r.0, omega (arith, r.1), r.2)
        ]
  ]

  -- The first line of a text that is not empty is not empty.
  line-length : (n c : ℕ) (cs : List ℕ) → 1 ≤ length (fgets_line (suc n) (c ∷ cs)).0
  unfolding fgets_line
  line-length n c cs = ground arith

  -- Where the lines fit, the loop reads the tokens of the whole text.
  pub line_tokens-tokens :
      (room fuel : ℕ) (text : List ℕ)
      → length text ≤ fuel
      → lines_fit (suc room) (suc room) text ≡ true
      → delim 10 ≡ true
      → line_tokens (suc room) fuel text ≡ tokens delim [] text
  unfolding line_tokens
  line_tokens-tokens room zero [] l h d = unfold tokens in refl
  line_tokens-tokens room zero (c ∷ cs) l h d = absurd (omega arith)
  line_tokens-tokens room (suc fuel) [] l h d = unfold tokens fgets_line read_line in refl
  line_tokens-tokens room (suc fuel) (c ∷ cs) l h d =
      let text = c ∷ cs in
      let r = first_line (suc room) (suc room) text h d [] in
      let le : length (fgets_line (suc room) text).1 ≤ fuel =
        omega (arith, l, r.1, line-length room c cs) in
      let ih = line_tokens-tokens room fuel (fgets_line (suc room) text).1 le r.0 d in
      read_line-some (fgets_line (suc room) text).0 _ (line-length room c cs)
      ∙ ap (λ ts. tokens delim [] (fgets_line (suc room) text).0 ++ ts) ih
      ∙ sym r.2

-- No character of the list is a newline.
abbrev pub NoNewline : List ℕ → Type 0
NoNewline [] = Unit
NoNewline (c ∷ cs) = ((c == 10) ≡ false) × NoNewline cs

pub NoNewline-append : (xs ys : List ℕ) → NoNewline xs → NoNewline ys → NoNewline (xs ++ ys)
NoNewline-append [] ys h k = k
NoNewline-append (c ∷ cs) ys h k = (h.0, NoNewline-append cs ys h.1 k)

-- A line that fits is read whole.
pub fgets_line_lem :
    (n : ℕ) (xs ys : List ℕ)
    → NoNewline xs
    → length xs < n
    → fgets_line n (xs ++ 10 ∷ ys) ≡ (xs ++ 10 ∷ [], ys)
unfolding fgets_line
fgets_line_lem zero xs ys h l = absurd (omega arith)
fgets_line_lem (suc n) [] ys h l = refl
fgets_line_lem (suc n) (c ∷ cs) ys h l =
    rw (h.0) (ap (λ p. (c ∷ p.0, p.1)) (fgets_line_lem n cs ys h.1 (omega arith)))

pub lines_fit-append :
    (room left : ℕ) (xs ys : List ℕ)
    → NoNewline xs
    → length xs ≤ left
    → lines_fit room (left - length xs) ys ≡ true
    → lines_fit room left (xs ++ ys) ≡ true
unfolding lines_fit
lines_fit-append room left [] ys h l f = let e : left ≡ left - 0 = omega arith in rw e f
lines_fit-append room left (c ∷ cs) ys h l f =
    let e : left - 1 - length cs ≡ left - suc (length cs) = omega arith in
    let ih = lines_fit-append room (left - 1) cs ys h.1 (omega arith) (rw e f) in
    let p : ltb 0 left ≡ true = ground arith in rw (p, h.0) ih
