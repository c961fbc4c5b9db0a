-- ===== src/Pipes/Commands/Definition.antt =====
-- lab05/src/ex1.c: what `getcommand` makes of a line that defines a command.
use mathlib.Core.List.{append-nil, append_assoc}
use agh_sem4_sysopy.Common.{
  ℕ, zero, suc, ◌≤◌, ◌≡◌, refl, sym, ap, ◌∙◌, Bool, false, List, [], ◌∷◌, ◌++◌, arith, ltb, length,
  length-append, length-replicate, take, drop, replicate, some,
}
use agh_sem4_sysopy.Libc.Input.{tokens, IsToken, IsToken-append, tokens-token, tokens-last}
use agh_sem4_sysopy.Pipes.Trim.{
  ltrim, rtrim, trim, BeginsWord, EndsWord, AllSpaces, rtrim_lem, ltrim_lem,
}
use agh_sem4_sysopy.Pipes.Commands.{is_blank, is_equals, with_body, of_parts, getcommand}
use agh_sem4_sysopy.Pipes.Commands.Words.{
  IsWord, AreWords, plain-equals, plain-EndsWord, word-AllPlain, trim-word, join, tokens-join,
  with_end-nil,
}

abbrev spaces : ℕ → List ℕ
spaces k = replicate k 32

spaces-AllSpaces : (k : ℕ) → AllSpaces (spaces k)
spaces-AllSpaces zero = tt
spaces-AllSpaces (suc k) = (refl, spaces-AllSpaces k)

spaces-equals : (k : ℕ) → IsToken is_equals (spaces k)
spaces-equals zero = tt
spaces-equals (suc k) = (refl, spaces-equals k)

EndsWord-append : (xs ys : List ℕ) → 1 ≤ length ys → EndsWord ys → EndsWord (xs ++ ys)
EndsWord-append [] ys l h = h
EndsWord-append (x ∷ []) [] l h = absurd (omega arith)
EndsWord-append (x ∷ []) (y ∷ ys) l h = h
EndsWord-append (x ∷ z ∷ zs) ys l h = EndsWord-append (z ∷ zs) ys l h

-- A text that nothing splits.
tokens-whole :
    (delim : ℕ → Bool) (s : List ℕ) → 1 ≤ length s → IsToken delim s → tokens delim [] s ≡ s ∷ []
unfolding tokens
tokens-whole delim [] l h = absurd (omega arith)
tokens-whole delim (c ∷ cs) l h = rw (h.0) (tokens-last delim [] cs c h.1)

-- The name and the rest of the line.
tokens-definition :
    (name rest : List ℕ)
    → IsWord name
    → 1 ≤ length rest
    → IsToken is_equals rest
    → tokens is_equals [] (name ++ 32 ∷ 61 ∷ rest) ≡ (name ++ 32 ∷ []) ∷ rest ∷ []
unfolding tokens
tokens-definition [] rest n l h = elim n [ ]
tokens-definition (c ∷ cs) rest n l h =
    let w = IsToken-append is_equals cs (32 ∷ []) (plain-equals cs n.1) (refl, tt) in
    rw (n.0.1) (
      ap (tokens is_equals (c ∷ [])) (sym (append_assoc cs (32 ∷ []) (61 ∷ rest)))
      ∙ tokens-token is_equals [] (cs ++ 32 ∷ []) rest c 61 w refl
      ∙ ap (λ ts. (c ∷ cs ++ 32 ∷ []) ∷ ts) (tokens-whole is_equals rest l h))

with_body_lem :
    (alias t : List ℕ)
    → 1 ≤ length t
    → with_body alias t ≡ some (record { alias = alias; args = tokens is_blank [] (drop 1 t) })
unfolding with_body
with_body_lem alias [] l = absurd (omega arith)
with_body_lem alias (c ∷ cs) l = refl

-- The text after the equals sign, of `k` spaces and a body.
trim-body :
    (k : ℕ) (body : List ℕ)
    → BeginsWord body
    → EndsWord body
    → 1 ≤ length body
    → k ≤ length body
    → trim (spaces k ++ (body ++ 10 ∷ [])) ≡ take k body ++ body
unfolding trim
trim-body k body b e l h =
    let not_less : ltb (length body) (length (spaces k)) ≡ false =
      not-ltb (length body) (length (spaces k)) (omega (arith, length-replicate {A = ℕ} k 32, h)) in
    ap (λ s. ltrim (rtrim s)) (sym (append_assoc (spaces k) body (10 ∷ [])))
    ∙ ap ltrim
        (rtrim_lem (spaces k ++ body) (10 ∷ []) (EndsWord-append (spaces k) body l e) (refl, tt))
    ∙ ltrim_lem (spaces k) body (spaces-AllSpaces k) b
    ∙ rw (not_less, length-replicate {A = ℕ} k 32) refl
  where
    not-ltb : (a b : ℕ) → b ≤ a → ltb a b ≡ false
    not-ltb a b h = ground arith

pub getcommand-spaces :
    (k : ℕ) (name body : List ℕ)
    → IsWord name
    → BeginsWord body
    → EndsWord body
    → 1 ≤ length body
    → k ≤ length body
    → IsToken is_equals body
    → getcommand (name ++ 32 ∷ 61 ∷ (spaces k ++ (body ++ 10 ∷ [])))
      ≡ some (record { alias = name; args = tokens is_blank [] (drop 1 (take k body ++ body)) })
unfolding getcommand of_parts
getcommand-spaces k name body n b e l h q =
    let rest = spaces k ++ (body ++ 10 ∷ []) in
    let long : 1 ≤ length rest =
      omega (arith, length-append (spaces k) (body ++ 10 ∷ []), length-append body (10 ∷ [])) in
    let one =
      IsToken-append is_equals (spaces k) (body ++ 10 ∷ []) (spaces-equals k)
        (IsToken-append is_equals body (10 ∷ []) q (refl, tt)) in
    ap of_parts (tokens-definition name rest n long one)
    ∙ ap (λ a. with_body a (trim rest)) (trim-word name (32 ∷ []) (word-AllPlain name n) (refl, tt))
    ∙ ap (with_body name) (trim-body k body b e l h)
    ∙ with_body_lem name (take k body ++ body) (omega (arith, length-append (take k body) body))

join-length : (w : List ℕ) (ws : List (List ℕ)) → AreWords (w ∷ ws) → 1 ≤ length (join (w ∷ ws))
unfolding join
join-length [] ws h = elim (h.0) [ ]
join-length (c ∷ cs) [] h = omega arith
join-length (c ∷ cs) (v ∷ ws) h = omega arith

join-BeginsWord : (w : List ℕ) (ws : List (List ℕ)) → AreWords (w ∷ ws) → BeginsWord (join (w ∷ ws))
unfolding join
join-BeginsWord [] ws h = elim (h.0) [ ]
join-BeginsWord (c ∷ cs) [] h = h.0.0.0
join-BeginsWord (c ∷ cs) (v ∷ ws) h = h.0.0.0

join-EndsWord : (w : List ℕ) (ws : List (List ℕ)) → AreWords (w ∷ ws) → EndsWord (join (w ∷ ws))
unfolding join
join-EndsWord w [] h = plain-EndsWord w (word-AllPlain w h.0)
join-EndsWord w (v ∷ ws) h =
    EndsWord-append w (32 ∷ join (v ∷ ws)) (omega arith)
      (EndsWord-append (32 ∷ []) (join (v ∷ ws)) (join-length v ws h.1) (join-EndsWord v ws h.1))

pub join-equals : (ws : List (List ℕ)) → AreWords ws → IsToken is_equals (join ws)
unfolding join
join-equals [] h = tt
join-equals (w ∷ []) h = plain-equals w (word-AllPlain w h.0)
join-equals (w ∷ v ∷ ws) h =
    IsToken-append is_equals w (32 ∷ join (v ∷ ws)) (plain-equals w (word-AllPlain w h.0))
      (refl, join-equals (v ∷ ws) h.1)

-- A name, a space, an equals sign, a space, and words with one space between two of them: the command
-- of that name and those words.
pub getcommand_lem :
    (name w : List ℕ) (ws : List (List ℕ))
    → IsWord name
    → AreWords (w ∷ ws)
    → getcommand (name ++ 32 ∷ 61 ∷ 32 ∷ (join (w ∷ ws) ++ 10 ∷ []))
      ≡ some (record { alias = name; args = w ∷ ws })
getcommand_lem name w ws n h =
    let body = join (w ∷ ws) in
    getcommand-spaces 1 name body n (join-BeginsWord w ws h) (join-EndsWord w ws h)
      (join-length w ws h) (join-length w ws h) (join-equals (w ∷ ws) h)
    ∙ ap (λ args. some (record { alias = name; args = tokens is_blank [] args })) (first body)
    ∙ ap (λ args. some (record { alias = name; args = args }))
        (ap (tokens is_blank []) (sym (append-nil body))
          ∙ tokens-join (w ∷ ws) [] h (omega arith) tt
          ∙ with_end-nil (w ∷ ws))
  where
    first : (body : List ℕ) → drop 1 (take 1 body ++ body) ≡ body
    first [] = refl
    first (c ∷ cs) = refl
