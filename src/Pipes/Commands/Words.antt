-- ===== src/Pipes/Commands/Words.antt =====
-- lab05/src/ex1.c: the words of a line, and what `trim` makes of them.
use mathlib.Core.List.{append-nil, append_assoc}
use agh_sem4_sysopy.Common.{
  ℕ, suc, ◌+◌, ◌≤◌, ◌≡◌, refl, ap, ◌∙◌, inl, inr, Bool, true, false, List, [], ◌∷◌, ◌++◌, arith,
  ◌==◌, ltb, if◌then◌else◌, length, count, Bool-cases,
}
use agh_sem4_sysopy.Libc.Numbers.{is_space}
use agh_sem4_sysopy.Libc.Input.{tokens, ended, IsToken, IsToken-append, tokens-token, tokens-last}
use agh_sem4_sysopy.Pipes.Trim.{
  ltrim, trim, cntchr, cntchr-count, BeginsWord, EndsWord, AllSpaces, rtrim_lem, ltrim_lem,
}
use agh_sem4_sysopy.Pipes.Commands.{is_blank, is_equals}

length-ended : (t : List ℕ) (ts : List (List ℕ)) → length (ended t ts) ≤ suc (length ts)
length-ended [] ts = omega arith
length-ended (c ∷ cs) ts = omega arith

length-tokens : (token s : List ℕ) → length (tokens is_blank token s) ≤ suc (count 32 s)
unfolding tokens count
length-tokens token [] = omega (arith, length-ended token [])
length-tokens token (c ∷ cs) = elim (Bool-cases (c == 32)) [
  | inl e ↦ rw e (omega (arith, length-ended token (tokens is_blank [] cs), length-tokens [] cs))
  | inr e ↦ rw e (omega (arith, length-tokens (token ++ c ∷ []) cs))
]

-- `getcommand` allocates one place more than there are spaces, and another for NULL: the words that
-- `strtok` finds fit.
pub length-tokens-cntchr :
    (args : List ℕ) → length (tokens is_blank [] args) + 1 ≤ cntchr args 32 0 + 2
length-tokens-cntchr args = omega (arith, length-tokens [] args, cntchr-count args 32 0)

-- A character that is no space and no equals sign, and a word of such characters.
abbrev pub IsPlain : ℕ → Type 0
IsPlain c = (is_space c ≡ false) × (is_equals c ≡ false)

abbrev pub AllPlain : List ℕ → Type 0
AllPlain [] = Unit
AllPlain (c ∷ cs) = IsPlain c × AllPlain cs

abbrev pub IsWord : List ℕ → Type 0
IsWord [] = ⊥
IsWord (c ∷ cs) = IsPlain c × AllPlain cs

abbrev pub AreWords : List (List ℕ) → Type 0
AreWords [] = Unit
AreWords (w ∷ ws) = IsWord w × AreWords ws

plain-IsToken : (w : List ℕ) → AllPlain w → IsToken is_blank w
plain-IsToken [] h = tt
plain-IsToken (c ∷ cs) h = (ground (arith, h.0.0), plain-IsToken cs h.1)

pub plain-equals : (w : List ℕ) → AllPlain w → IsToken is_equals w
plain-equals [] h = tt
plain-equals (c ∷ cs) h = (h.0.1, plain-equals cs h.1)

pub plain-EndsWord : (w : List ℕ) → AllPlain w → EndsWord w
plain-EndsWord [] h = tt
plain-EndsWord (c ∷ []) h = h.0.0
plain-EndsWord (c ∷ d ∷ ds) h = plain-EndsWord (d ∷ ds) h.1

pub word-AllPlain : (w : List ℕ) → IsWord w → AllPlain w
word-AllPlain [] h = elim h [ ]
word-AllPlain (c ∷ cs) h = h

-- A text without spaces before it is not changed by `ltrim`.
pub ltrim-none : (xs : List ℕ) → BeginsWord xs → ltrim xs ≡ xs
ltrim-none xs h = ltrim_lem [] xs tt h ∙ either (ltb (length xs) 0)
  where
    either : (b : Bool) → (if b then xs else xs) ≡ xs
    either true = refl
    either false = refl

plain-BeginsWord : (w : List ℕ) → AllPlain w → BeginsWord w
plain-BeginsWord [] h = tt
plain-BeginsWord (c ∷ cs) h = h.0.0

-- A word, and spaces after it.
pub trim-word : (w spaces : List ℕ) → AllPlain w → AllSpaces spaces → trim (w ++ spaces) ≡ w
unfolding trim
trim-word w spaces h s =
    ap ltrim (rtrim_lem w spaces (plain-EndsWord w h) s) ∙ ltrim-none w (plain-BeginsWord w h)

-- The words of a line, with one space between two of them.
unfoldable pub join : List (List ℕ) → List ℕ
join [] = []
join (w ∷ []) = w
join (w ∷ v ∷ ws) = w ++ 32 ∷ join (v ∷ ws)

-- The words, the last of which goes on with `end`.
unfoldable pub with_end : List (List ℕ) → List ℕ → List (List ℕ)
with_end [] end = []
with_end (w ∷ []) end = (w ++ end) ∷ []
with_end (w ∷ v ∷ ws) end = w ∷ with_end (v ∷ ws) end

tokens-word :
    (w rest : List ℕ) → IsWord w → tokens is_blank [] (w ++ 32 ∷ rest) ≡ w ∷ tokens is_blank [] rest
unfolding tokens
tokens-word [] rest h = elim h [ ]
tokens-word (c ∷ cs) rest h =
    let e : is_blank c ≡ false = ground (arith, h.0.0) in
    rw e (tokens-token is_blank [] cs rest c 32 (plain-IsToken cs h.1) refl)

tokens-end :
    (w end : List ℕ)
    → IsWord w
    → IsToken is_blank end
    → tokens is_blank [] (w ++ end) ≡ (w ++ end) ∷ []
unfolding tokens
tokens-end [] end h k = elim h [ ]
tokens-end (c ∷ cs) end h k =
    let e : is_blank c ≡ false = ground (arith, h.0.0) in
    rw e (
      tokens-last is_blank [] (cs ++ end) c
        (IsToken-append is_blank cs end (plain-IsToken cs h.1) k))

pub tokens-join :
    (ws : List (List ℕ)) (end : List ℕ)
    → AreWords ws
    → 1 ≤ length ws
    → IsToken is_blank end
    → tokens is_blank [] (join ws ++ end) ≡ with_end ws end
unfolding join with_end
tokens-join [] end h l k = absurd (omega arith)
tokens-join (w ∷ []) end h l k = tokens-end w end h.0 k
tokens-join (w ∷ v ∷ ws) end h l k =
    ap (tokens is_blank []) (append_assoc w (32 ∷ join (v ∷ ws)) end)
    ∙ tokens-word w (join (v ∷ ws) ++ end) h.0
    ∙ ap (λ ts. w ∷ ts) (tokens-join (v ∷ ws) end h.1 (omega arith) k)

pub with_end-nil : (ws : List (List ℕ)) → with_end ws [] ≡ ws
unfolding with_end
with_end-nil [] = refl
with_end-nil (w ∷ []) = ap (λ t. t ∷ []) (append-nil w)
with_end-nil (w ∷ v ∷ ws) = ap (λ ts. w ∷ ts) (with_end-nil (v ∷ ws))
