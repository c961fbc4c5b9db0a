-- ===== src/Pipes/Tests.antt =====
-- lab05/src/ex1.c: lines, files and pipelines.
use agh_sem4_sysopy.Common.{first_index, ◌≡◌, refl, none, some, List, [], ◌∷◌, ◌++◌, take, drop}
use agh_sem4_sysopy.Libc.Text.{codes}
use agh_sem4_sysopy.Libc.Numbers.{skip_spaces}
use agh_sem4_sysopy.Libc.Strings.{str_eq}
use agh_sem4_sysopy.Libc.Input.{tokens}
use agh_sem4_sysopy.Pipes.Trim.{ltrim, trim}
use agh_sem4_sysopy.Pipes.Commands.{Command, is_blank, getcommand, getargs, exec, parsefile}
use agh_sem4_sysopy.Pipes.Commands.Words.{join}
use agh_sem4_sysopy.Pipes.Commands.Split.{split}
use agh_sem4_sysopy.Pipes.Commands.File.{parsefile-meanings}
use agh_sem4_sysopy.Pipes.Commands.Entries.{words_of, Entry, defines, runs, file_of, meanings}
use agh_sem4_sysopy.Pipes.Spawn.{reads, writes, start}
use agh_sem4_sysopy.Pipes.Spawn.Wired.{all_wired, start-wired}

-- Two spaces before a text of two characters: it is doubled.
ltrim_runs : ltrim (codes "  ab") ≡ codes "abab"
unfolding ltrim skip_spaces
ltrim_runs = refl

no_space :
    getcommand (codes "who=ls -l\n")
    ≡ some (record { alias = codes "who"; args = codes "s" ∷ codes "-l" ∷ [] })
unfolding getcommand skip_spaces
no_space = refl

abbrev entries : List Entry
entries =
    defines (codes "users") (codes "cat") (codes "/etc/passwd" ∷ codes "|" ∷ codes "wc" ∷ [])
    ∷ defines (codes "sorted") (codes "sort") []
    ∷ runs (codes "users") (codes "|" ∷ codes "sorted" ∷ [])
    ∷ []

file_runs : file_of entries ≡ codes "users = cat /etc/passwd | wc\nsorted = sort\nusers | sorted\n"
unfolding file_of join
file_runs = refl

abbrev commands : List Command
commands =
    record {
      alias = codes "users";
      args = codes "cat" ∷ codes "/etc/passwd" ∷ codes "|" ∷ codes "wc" ∷ [];
    }
    ∷ record { alias = codes "sorted"; args = codes "sort" ∷ [] }
    ∷ []

meanings_runs :
    meanings entries (record { commands = []; executed = [] })
    ≡ some (record {
      commands = commands;
      executed =
          ((codes "cat" ∷ codes "/etc/passwd" ∷ []) ∷ (codes "wc" ∷ []) ∷ (codes "sort" ∷ []) ∷ [])
          ∷ [];
    })
unfolding meanings str_eq words_of first_index split
meanings_runs = refl

-- A space before the newline is a word that names no command.
trailing_space : exec commands (codes "sorted \n") ≡ none
unfolding exec str_eq getargs skip_spaces tokens trim
trailing_space = refl

corrupted :
    tokens is_blank [] (drop 1 (take 2 (codes "cat x") ++ codes "cat x"))
    ≡ codes "acat" ∷ codes "x" ∷ []
unfolding tokens
corrupted = refl

abbrev two_entries : List Entry
two_entries = defines (codes "a") (codes "ls") [] ∷ runs (codes "a") [] ∷ []

parsefile-meanings_example :
    parsefile (file_of two_entries) ≡ meanings two_entries (record { commands = []; executed = [] })
parsefile-meanings_example = parsefile-meanings two_entries (
  (((refl, refl), tt), ((((refl, refl), ((refl, refl), tt)), tt))),
  (((((refl, refl), tt), tt)), tt),
)

start-wired_example :
    let p = start (reads 9, writes 9) (reads 9, writes 9) 3 in
    (p.children ≡ all_wired 3 3 0) × (p.open_ends ≡ [])
start-wired_example = start-wired (reads 9, writes 9) (reads 9, writes 9) 3
