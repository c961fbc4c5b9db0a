-- ===== src/Pipes/Commands.antt =====
-- lab05/src/ex1.c: the commands of the file. An array of arguments is the list of what stands before its
-- NULL. `none` is where the program follows a pointer that is NULL or lies outside its string.
pub mod Words
pub mod Entries
pub mod File
pub mod Split
pub mod Definition
use agh_sem4_sysopy.Common.{
  ℕ, zero, suc, ◌+◌, ◌≤◌, ◌≡◌, Bool, true, false, not, ◌||◌, Option, none, some, List, [], ◌∷◌,
  ◌++◌, ◌==◌, if◌then◌else◌, map, length,
}
use agh_sem4_sysopy.Libc.Input.{tokens}
use agh_sem4_sysopy.Libc.Strings.{str_eq, head0}
use agh_sem4_sysopy.Pipes.Trim.{trim, cntchr}

abbrev pub equals_sign : ℕ
equals_sign = 61

abbrev pub is_equals : ℕ → Bool
is_equals c = c == equals_sign

abbrev pub is_blank : ℕ → Bool
is_blank c = c == 32

abbrev pub bar : List ℕ
bar = 124 ∷ []

-- `struct command`
pub record Command : Type 0 where
  pub alias : List ℕ
  pub args : List (List ℕ)

-- `trim(strtok(NULL, "=")) + 1`, and the words of it.
unfoldable pub with_body : List ℕ → List ℕ → Option Command
unfolding tokens trim
with_body alias [] = none
with_body alias (c ∷ args) = some (record { alias = alias; args = tokens is_blank [] args })

unfoldable pub of_parts : List (List ℕ) → Option Command
unfolding with_body
of_parts (alias ∷ body ∷ more) = with_body (trim alias) (trim body)
of_parts _ = none

unfoldable pub getcommand : List ℕ → Option Command
unfolding of_parts
getcommand buf = of_parts (tokens is_equals [] buf)

unfoldable pub getargs : List Command → List ℕ → Option (List (List ℕ))
getargs [] alias = none
getargs (c ∷ commands) alias = if str_eq alias c.alias then some c.args else getargs commands alias

-- `*arg[j] == '|'`
abbrev pub is_bar : List ℕ → Bool
is_bar word = head0 word == 124

-- The arguments from `i` up to `j`, and those from the next `i` on.
unfoldable pub until_bar : List (List ℕ) → List (List ℕ) × List (List ℕ)
until_bar [] = ([], [])
until_bar (w ∷ ws) =
    if is_bar w then ([], ws) else (let (segment, rest) = until_bar ws in (w ∷ segment, rest))

-- The fuel is the number of arguments: each round passes at least one.
unfoldable pub append_rounds : ℕ → List (List (List ℕ)) → List (List ℕ) → List (List (List ℕ))
unfolding until_bar
append_rounds zero command arg = command
append_rounds (suc fuel) command [] = command
append_rounds (suc fuel) command (w ∷ ws) =
    append_rounds fuel (command ++ (until_bar (w ∷ ws)).0 ∷ []) (until_bar (w ∷ ws)).1

unfoldable pub appendargs : List (List (List ℕ)) → List (List ℕ) → List (List (List ℕ))
unfolding append_rounds
appendargs command arg = append_rounds (length arg) command arg

-- The loop of `exec` over the words of its line.
unfoldable pub add_alias :
    List Command → List (List (List ℕ)) → List ℕ → Option (List (List (List ℕ)))
unfolding appendargs getargs
add_alias commands command alias =
    if str_eq alias bar
    then some command
    else elim (getargs commands alias) [ none ↦ none | some args ↦ some (appendargs command args) ]

unfoldable pub add_aliases :
    List Command → List (List (List ℕ)) → List (List ℕ) → Option (List (List (List ℕ)))
unfolding add_alias
add_aliases commands command [] = some command
add_aliases commands command (word ∷ words) = elim (add_alias commands command (trim word)) [
  | none ↦ none
  | some command' ↦ add_aliases commands command' words
]

-- The commands that `exec` assembles; it reads the first word before it looks whether there is one.
unfoldable pub assemble : List Command → List (List ℕ) → Option (List (List (List ℕ)))
unfolding add_aliases
assemble commands [] = none
assemble commands (word ∷ words) = add_aliases commands [] (word ∷ words)

unfoldable pub exec : List Command → List ℕ → Option (List (List (List ℕ)))
unfolding assemble
exec commands buf = assemble commands (tokens is_blank [] buf)

-- `strchr(buf, '=') != NULL`
unfoldable pub has_equals : List ℕ → Bool
has_equals [] = false
has_equals (c ∷ cs) = c == equals_sign || has_equals cs

-- The commands so far, and the pipelines that were executed, the oldest first.
pub record State : Type 0 where
  pub commands : List Command
  pub executed : List (List (List (List ℕ)))

-- A round of the loop of `parsefile`.
unfoldable pub parse_line : List ℕ → State → Option State
unfolding has_equals getcommand exec
parse_line buf s =
    if has_equals buf
    then elim (getcommand buf) [
      | none ↦ none
      | some command ↦ some (record s { commands = s.commands ++ command ∷ [] })
    ]
    else (if head0 buf == 10 then some s else elim (exec s.commands buf) [
      | none ↦ none
      | some pipeline ↦ some (record s { executed = s.executed ++ pipeline ∷ [] })
    ])

-- The lines that `getline` reads, with their newlines.
unfoldable pub lines_from : List ℕ → List ℕ → List (List ℕ)
lines_from line [] = elim line [ [] ↦ [] | c ∷ cs ↦ (c ∷ cs) ∷ [] ]
lines_from line (c ∷ cs) = elim (c == 10) [
  | true ↦ (line ++ c ∷ []) ∷ lines_from [] cs
  | false ↦ lines_from (line ++ c ∷ []) cs
]

unfoldable pub parse_lines : List (List ℕ) → State → Option State
unfolding parse_line
parse_lines [] s = some s
parse_lines (line ∷ lines) s = elim (parse_line line s) [
  | none ↦ none
  | some s' ↦ parse_lines lines s'
]

unfoldable pub parsefile : List ℕ → Option State
unfolding lines_from parse_lines
parsefile file = parse_lines (lines_from [] file) (record { commands = []; executed = [] })
