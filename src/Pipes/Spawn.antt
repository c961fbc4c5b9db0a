-- ===== src/Pipes/Spawn.antt =====
-- lab05/src/ex1.c: the loop of `exec` that starts the processes of a pipeline: `pipe`, `fork`, `dup2` and
-- `close` on the ends of the pipes. The pipe of round `i` has the number `i`.
pub mod Wired
use agh_sem4_sysopy.Common.{
  ℕ, zero, suc, ◌+◌, ◌-◌, Bool, true, false, not, ◌&&◌, List, [], ◌∷◌, ◌++◌, ◌==◌, ltb,
  if◌then◌else◌,
}

-- An end of a pipe: `fd[0]` reads, `fd[1]` writes.
pub data End : Type 0 where
  reads : ℕ → End
  writes : ℕ → End

-- What stands at STDIN_FILENO or STDOUT_FILENO.
pub data Stream : Type 0 where
  terminal : Stream
  end_of : End → Stream

-- What a process has at its standard descriptors, and its other open descriptors.
pub record Process : Type 0 where
  pub stdin : Stream
  pub stdout : Stream
  pub open_ends : List End

abbrev pub same_end : End → End → Bool
same_end (reads m) (reads n) = m == n
same_end (reads m) (writes n) = false
same_end (writes m) (reads n) = false
same_end (writes m) (writes n) = m == n

unfoldable pub close : End → List End → List End
close e [] = []
close e (x ∷ xs) = if same_end x e then xs else x ∷ close e xs

-- `old_fd` and `new_fd`, what the parent has open, and the processes started, the first one first.
pub record Parent : Type 0 where
  pub old_fd : End × End
  pub new_fd : End × End
  pub open_ends : List End
  pub children : List Process

abbrev pub close_both : End × End → List End → List End
close_both fd ends = close fd.1 (close fd.0 ends)

-- Round `i` of `command_size`: the pipe, if a command follows.
unfoldable pub make_pipe : ℕ → ℕ → Parent → Parent
make_pipe command_size i p =
    if ltb i (command_size - 1)
    then record p { new_fd = (reads i, writes i); open_ends = reads i ∷ writes i ∷ p.open_ends }
    else p

-- The child, up to its `execvp`: it has what the parent has open.
unfoldable pub child : ℕ → ℕ → Parent → Process
unfolding close
child command_size i p =
    let ends = if ltb 0 i then close_both p.old_fd p.open_ends else p.open_ends in
    record {
      stdin = if ltb 0 i then end_of p.old_fd.0 else terminal;
      stdout = if ltb i (command_size - 1) then end_of p.new_fd.1 else terminal;
      open_ends = if ltb i (command_size - 1) then close_both p.new_fd ends else ends;
    }

-- What the parent does after `fork`.
unfoldable pub parent_round : ℕ → ℕ → Parent → Parent
unfolding close
parent_round command_size i p = record p {
  open_ends = if ltb 0 i then close_both p.old_fd p.open_ends else p.open_ends;
  old_fd = if ltb i (command_size - 1) then p.new_fd else p.old_fd;
}

unfoldable pub round : ℕ → ℕ → Parent → Parent
unfolding make_pipe child parent_round
round command_size i p =
    let q = make_pipe command_size i p in
    let r = parent_round command_size i q in
    record r { children = q.children ++ child command_size i q ∷ [] }

-- The loop from `i` on, `n` rounds.
unfoldable pub rounds : ℕ → ℕ → ℕ → Parent → Parent
unfolding round
rounds command_size zero i p = p
rounds command_size (suc n) i p = rounds command_size n (i + 1) (round command_size i p)

-- The whole loop. `old_fd` and `new_fd` are not set before it.
unfoldable pub start : End × End → End × End → ℕ → Parent
unfolding rounds
start old_fd new_fd command_size =
    rounds command_size command_size 0
      (record { old_fd = old_fd; new_fd = new_fd; open_ends = []; children = [] })
