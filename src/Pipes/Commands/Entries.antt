-- ===== src/Pipes/Commands/Entries.antt =====
-- lab05/src/ex1.c: the lines of a file and what they mean, and `exec` on the line of a pipeline.
use mathlib.Core.List.{append-nil, append_assoc}
use agh_sem4_sysopy.Common.{
  suc, ◌+◌, first_index, get_or, ℕ, ◌≡◌, refl, sym, ap, ◌∙◌, inl, inr, true, false, List, [], ◌∷◌,
  ◌++◌, arith, Bool-cases, Option, none, some, Option-cases,
}
use agh_sem4_sysopy.Libc.Strings.{str_eq}
use agh_sem4_sysopy.Libc.Input.{tokens}
use agh_sem4_sysopy.Pipes.Trim.{trim}
use agh_sem4_sysopy.Pipes.Commands.{
  Command, bar, getargs, add_alias, add_aliases, assemble, exec, State,
}
use agh_sem4_sysopy.Pipes.Commands.Words.{
  IsWord, AreWords, word-AllPlain, trim-word, join, with_end, tokens-join,
}
use agh_sem4_sysopy.Pipes.Commands.Split.{split, appendargs-split}

-- A line: a name and the words of its command, or a pipeline of names and bars.
pub data Entry : Type 0 where
  defines : (name word : List ℕ) (words : List (List ℕ)) → Entry
  runs : (word : List ℕ) (words : List (List ℕ)) → Entry

abbrev pub IsEntry : Entry → Type 0
IsEntry (defines name word words) = IsWord name × AreWords (word ∷ words)
IsEntry (runs word words) = AreWords (word ∷ words)

abbrev pub AreEntries : List Entry → Type 0
AreEntries [] = Unit
AreEntries (e ∷ es) = IsEntry e × AreEntries es

unfoldable pub text_of : Entry → List ℕ
unfolding join
text_of (defines name word words) = name ++ 32 ∷ 61 ∷ 32 ∷ join (word ∷ words)
text_of (runs word words) = join (word ∷ words)

-- The file of the lines.
unfoldable pub file_of : List Entry → List ℕ
unfolding text_of
file_of [] = []
file_of (e ∷ es) = text_of e ++ 10 ∷ file_of es

-- The words of the first command of that name.
unfoldable pub words_of : List Command → List ℕ → Option (List (List ℕ))
words_of commands name = elim (first_index (λ c. str_eq name c.alias) 0 commands) [
  | none ↦ none
  | some i ↦ some (get_or commands i (record { alias = []; args = [] })).args
]

-- The commands of a pipeline: those of each name, split at their bars, in order.
unfoldable pub pipeline : List Command → List (List ℕ) → Option (List (List (List ℕ)))
unfolding split
pipeline commands [] = some []
pipeline commands (word ∷ words) = elim (str_eq word bar) [
  | true ↦ pipeline commands words
  | false ↦ elim (words_of commands word) [
    | none ↦ none
    | some args ↦ elim (pipeline commands words) [
      | none ↦ none
      | some more ↦ some (split args ++ more)
    ]
  ]
]

-- What a line does.
unfoldable pub meaning : Entry → State → Option State
unfolding pipeline
meaning (defines name word words) s =
    some (record s { commands = s.commands ++ record { alias = name; args = word ∷ words } ∷ [] })
meaning (runs word words) s = elim (pipeline s.commands (word ∷ words)) [
  | none ↦ none
  | some p ↦ some (record s { executed = s.executed ++ p ∷ [] })
]

unfoldable pub meanings : List Entry → State → Option State
unfolding meaning
meanings [] s = some s
meanings (e ∷ es) s = elim (meaning e s) [ none ↦ none | some s' ↦ meanings es s' ]

-- The commands of a pipeline after those that are there.
abbrev after : List (List (List ℕ)) → Option (List (List (List ℕ))) → Option (List (List (List ℕ)))
after command none = none
after command (some more) = some (command ++ more)

one_more : Option ℕ → Option ℕ
one_more none = none
one_more (some i) = some (suc i)

first_from :
    (k : ℕ) (commands : List Command) (name : List ℕ)
    → first_index (λ c. str_eq name c.alias) (k + 1) commands
      ≡ one_more (first_index (λ c. str_eq name c.alias) k commands)
unfolding first_index one_more
first_from k [] name = refl
first_from k (c ∷ cs) name = elim (Bool-cases (str_eq name c.alias)) [
  | inl e ↦ let s : k + 1 ≡ suc k = omega arith in rw e (ap some s)
  | inr e ↦ rw e (first_from (k + 1) cs name)
]

-- getargs finds the words that a name stands for, or that there are none.
getargs-words_of :
    (commands : List Command) (name : List ℕ) → getargs commands name ≡ words_of commands name
unfolding words_of first_index getargs one_more
getargs-words_of [] name = refl
getargs-words_of (c ∷ cs) name = elim (Bool-cases (str_eq name c.alias)) [
  | inl e ↦ rw (words_of, e) refl
  | inr e ↦
      rw (words_of, e)
        (getargs-words_of cs name
          ∙ later (first_index (λ d. str_eq name d.alias) 0 cs)
          ∙ ap at (sym (first_from 0 cs name)))
]
  where
    at : Option ℕ → Option (List (List ℕ))
    at o = elim o [
      | none ↦ none
      | some i ↦ some (get_or (c ∷ cs) i (record { alias = []; args = [] })).args
    ]

    later :
        (o : Option ℕ)
        → (elim o [
          | none ↦ none
          | some i ↦ some (get_or cs i (record { alias = []; args = [] })).args
        ])
          ≡ at (one_more o)
    later none = refl
    later (some i) = refl

-- A word of the line, once it is trimmed.
add_aliases-word :
    (commands : List Command) (command : List (List (List ℕ))) (token word : List ℕ)
    (tokens words : List (List ℕ))
    → trim token ≡ word
    → ((c : List (List (List ℕ)))
        → add_aliases commands c tokens ≡ after c (pipeline commands words))
    → add_aliases commands command (token ∷ tokens)
      ≡ after command (pipeline commands (word ∷ words))
unfolding add_aliases add_alias pipeline
add_aliases-word commands command token word tokens words t h =
    ap next t ∙ elim (Bool-cases (str_eq word bar)) [
      | inl e ↦ rw (e, pipeline) (h command)
      | inr e ↦ elim (Option-cases (words_of commands word)) [
        | inl g ↦ rw (e, pipeline, getargs-words_of commands word, g) refl
        | inr (args, g) ↦
            rw (e, pipeline, getargs-words_of commands word, g)
              (ap (λ c. add_aliases commands c tokens) (appendargs-split command args)
                ∙ h (command ++ split args)
                ∙ joined args (pipeline commands words))
      ]
    ]
  where
    next : List ℕ → Option (List (List (List ℕ)))
    next w = elim (add_alias commands command w) [
      | none ↦ none
      | some command' ↦ add_aliases commands command' tokens
    ]

    joined :
        (args : List (List ℕ)) (more : Option (List (List (List ℕ))))
        → after (command ++ split args) more
          ≡ after command (elim more [ none ↦ none | some p ↦ some (split args ++ p) ])
    joined args none = refl
    joined args (some p) = ap some (append_assoc command (split args) p)

-- The words of a line, the last with its newline.
add_aliases-pipeline :
    (commands : List Command) (words : List (List ℕ))
    → AreWords words
    → (command : List (List (List ℕ)))
    → add_aliases commands command (with_end words (10 ∷ []))
      ≡ after command (pipeline commands words)
unfolding with_end
add_aliases-pipeline commands [] h command =
    unfold add_aliases pipeline in ap some (sym (append-nil command))
add_aliases-pipeline commands (w ∷ []) h command =
    add_aliases-word commands command (w ++ 10 ∷ []) w [] []
      (trim-word w (10 ∷ []) (word-AllPlain w h.0) (refl, tt))
      (λ c. unfold add_aliases pipeline in ap some (sym (append-nil c)))
add_aliases-pipeline commands (w ∷ v ∷ ws) h command =
    add_aliases-word commands command w w (with_end (v ∷ ws) (10 ∷ [])) (v ∷ ws)
      (ap trim (sym (append-nil w)) ∙ trim-word w [] (word-AllPlain w h.0) tt)
      (add_aliases-pipeline commands (v ∷ ws) h.1)

after_nothing : (o : Option (List (List (List ℕ)))) → after [] o ≡ o
after_nothing none = refl
after_nothing (some p) = refl

pub exec-pipeline :
    (commands : List Command) (w : List ℕ) (ws : List (List ℕ))
    → AreWords (w ∷ ws)
    → exec commands (join (w ∷ ws) ++ 10 ∷ []) ≡ pipeline commands (w ∷ ws)
unfolding exec
exec-pipeline commands w ws h =
    ap (assemble commands) (tokens-join (w ∷ ws) (10 ∷ []) h (omega arith) (refl, tt))
    ∙ first_word w ws
    ∙ add_aliases-pipeline commands (w ∷ ws) h []
    ∙ after_nothing (pipeline commands (w ∷ ws))
  where
    first_word :
        (w : List ℕ) (ws : List (List ℕ))
        → assemble commands (with_end (w ∷ ws) (10 ∷ []))
          ≡ add_aliases commands [] (with_end (w ∷ ws) (10 ∷ []))
    first_word w [] = unfold assemble with_end in refl
    first_word w (v ∷ vs) = unfold assemble with_end in refl
