-- ===== src/Pipes/Commands/File.antt =====
-- lab05/src/ex1.c: `parsefile` on a file of definitions and pipelines, against what they mean.
use mathlib.Core.List.{append-nil, append_assoc}
use agh_sem4_sysopy.Common.{
  ℕ, ◌≡◌, refl, sym, ap, ◌∙◌, true, false, List, [], ◌∷◌, ◌++◌, arith, ◌==◌, Option, none, some,
}
use agh_sem4_sysopy.Libc.Strings.{head0}
use agh_sem4_sysopy.Libc.Input.{IsToken, IsToken-append, NoNewline, NoNewline-append}
use agh_sem4_sysopy.Pipes.Commands.{
  Command, is_equals, getcommand, exec, has_equals, State, parse_line, parse_lines, lines_from,
  parsefile,
}
use agh_sem4_sysopy.Pipes.Commands.Words.{AllPlain, IsWord, AreWords, word-AllPlain, join}
use agh_sem4_sysopy.Pipes.Commands.Definition.{getcommand_lem, join-equals}
use agh_sem4_sysopy.Pipes.Commands.Entries.{
  Entry, defines, runs, IsEntry, AreEntries, text_of, file_of, pipeline, meaning, meanings,
  exec-pipeline,
}

has_equals-some : (xs ys : List ℕ) → has_equals (xs ++ 61 ∷ ys) ≡ true
unfolding has_equals
has_equals-some [] ys = refl
has_equals-some (c ∷ cs) ys = ground (arith, has_equals-some cs ys)

has_equals-none : (s : List ℕ) → IsToken is_equals s → has_equals s ≡ false
unfolding has_equals
has_equals-none [] h = refl
has_equals-none (c ∷ cs) h = rw (h.0) (has_equals-none cs h.1)

parse_line-defines :
    (buf : List ℕ) (c : Command) (s : State)
    → has_equals buf ≡ true
    → getcommand buf ≡ some c
    → parse_line buf s ≡ some (record s { commands = s.commands ++ c ∷ [] })
unfolding parse_line
parse_line-defines buf c s e g = rw (parse_line, e, g) refl

ran : State → Option (List (List (List ℕ))) → Option State
ran s none = none
ran s (some p) = some (record s { executed = s.executed ++ p ∷ [] })

parse_line-runs :
    (buf : List ℕ) (s : State)
    → has_equals buf ≡ false
    → (head0 buf == 10) ≡ false
    → parse_line buf s ≡ ran s (exec s.commands buf)
unfolding parse_line ran
parse_line-runs buf s e n = rw (parse_line, e, n) refl

first_char :
    (w : List ℕ) (ws : List (List ℕ)) (end : List ℕ)
    → IsWord w
    → (head0 (join (w ∷ ws) ++ end) == 10) ≡ false
unfolding join
first_char [] ws end h = elim h [ ]
first_char (c ∷ cs) [] end h = ground (arith, h.0.0)
first_char (c ∷ cs) (v ∷ vs) end h = ground (arith, h.0.0)

parse_line-meaning :
    (e : Entry) (s : State) → IsEntry e → parse_line (text_of e ++ 10 ∷ []) s ≡ meaning e s
unfolding text_of meaning ran
parse_line-meaning (defines name w ws) s h =
    let body = join (w ∷ ws) in
    ap (λ buf. parse_line buf s) (append_assoc name (32 ∷ 61 ∷ 32 ∷ body) (10 ∷ []))
    ∙ parse_line-defines (name ++ 32 ∷ 61 ∷ 32 ∷ (body ++ 10 ∷ [])) _ s
        (ap has_equals (sym (append_assoc name (32 ∷ []) (61 ∷ 32 ∷ (body ++ 10 ∷ []))))
          ∙ has_equals-some (name ++ 32 ∷ []) (32 ∷ (body ++ 10 ∷ [])))
        (getcommand_lem name w ws h.0 h.1)
parse_line-meaning (runs w ws) s h =
    let buf = join (w ∷ ws) ++ 10 ∷ [] in
    parse_line-runs buf s
      (has_equals-none buf
        (IsToken-append is_equals (join (w ∷ ws)) (10 ∷ []) (join-equals (w ∷ ws) h) (refl, tt)))
      (first_char w ws (10 ∷ []) h.0)
    ∙ ap (ran s) (exec-pipeline s.commands w ws h)
    ∙ ran_meaning (pipeline s.commands (w ∷ ws))
  where
    ran_meaning :
        (o : Option (List (List (List ℕ))))
        → ran s o
          ≡ elim o [ none ↦ none | some p ↦ some (record s { executed = s.executed ++ p ∷ [] }) ]
    ran_meaning none = refl
    ran_meaning (some p) = refl

plain-NoNewline : (w : List ℕ) → AllPlain w → NoNewline w
plain-NoNewline [] h = tt
plain-NoNewline (c ∷ cs) h = (ground (arith, h.0.0), plain-NoNewline cs h.1)

join-NoNewline : (ws : List (List ℕ)) → AreWords ws → NoNewline (join ws)
unfolding join
join-NoNewline [] h = tt
join-NoNewline (w ∷ []) h = plain-NoNewline w (word-AllPlain w h.0)
join-NoNewline (w ∷ v ∷ ws) h =
    NoNewline-append w (32 ∷ join (v ∷ ws)) (plain-NoNewline w (word-AllPlain w h.0))
      (refl, join-NoNewline (v ∷ ws) h.1)

text_of-NoNewline : (e : Entry) → IsEntry e → NoNewline (text_of e)
unfolding text_of
text_of-NoNewline (defines name w ws) h =
    NoNewline-append name (32 ∷ 61 ∷ 32 ∷ join (w ∷ ws))
      (plain-NoNewline name (word-AllPlain name h.0))
      (refl, (refl, (refl, join-NoNewline (w ∷ ws) h.1)))
text_of-NoNewline (runs w ws) h = join-NoNewline (w ∷ ws) h

lines_from-line :
    (line xs rest : List ℕ)
    → NoNewline xs
    → lines_from line (xs ++ 10 ∷ rest) ≡ (line ++ xs ++ 10 ∷ []) ∷ lines_from [] rest
unfolding lines_from
lines_from-line line [] rest h =
    ap (λ l. (l ++ 10 ∷ []) ∷ lines_from [] rest) (sym (append-nil line))
lines_from-line line (c ∷ cs) rest h =
    rw (lines_from, h.0)
      (lines_from-line (line ++ c ∷ []) cs rest h.1
        ∙ ap (λ l. (l ++ 10 ∷ []) ∷ lines_from [] rest) (append_assoc line (c ∷ []) cs))

parse_lines-meanings :
    (es : List Entry) (s : State)
    → AreEntries es
    → parse_lines (lines_from [] (file_of es)) s ≡ meanings es s
unfolding file_of meanings parse_lines lines_from
parse_lines-meanings [] s h = refl
parse_lines-meanings (e ∷ es) s h =
    ap (λ lines. parse_lines lines s)
      (lines_from-line [] (text_of e) (file_of es) (text_of-NoNewline e h.0))
    ∙ (ap (λ o. elim o [ none ↦ none | some s' ↦ parse_lines (lines_from [] (file_of es)) s' ])
          (parse_line-meaning e s h.0)
        ∙ others (meaning e s) (λ s'. parse_lines-meanings es s' h.1))
  where
    others :
        (o : Option State)
        → ((s' : State) → parse_lines (lines_from [] (file_of es)) s' ≡ meanings es s')
        → elim o [ none ↦ none | some s' ↦ parse_lines (lines_from [] (file_of es)) s' ]
          ≡ elim o [ none ↦ none | some s' ↦ meanings es s' ]
    others none ih = refl
    others (some s') ih = ih s'

-- A file of definitions and pipelines, each on a line, with one space between two words and about the
-- equals sign: `parsefile` does what the lines mean, one after the other; it fails where a pipeline
-- names no command that was defined before.
pub parsefile-meanings :
    (es : List Entry)
    → AreEntries es
    → parsefile (file_of es) ≡ meanings es (record { commands = []; executed = [] })
unfolding parsefile
parsefile-meanings es h = parse_lines-meanings es (record { commands = []; executed = [] }) h
