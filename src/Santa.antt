-- ===== src/Santa.antt =====
-- lab09/src/main.c: Santa, the elves and the reindeer. Every access to the shared variables is under the mutex, so
-- a turn is what a thread does from one lock to the next unlock or pthread_cond_wait. A thread
-- that waits has no turn before it is signalled.
pub mod Counts
pub mod Arrivals
pub mod Harness
pub mod Laws
mod Tests
use agh_sem4_sysopy.Common.{
  ℕ, zero, suc, ◌+◌, List, [], ◌∷◌, Bool, true, false, ◌&&◌, ◌==◌, ltb, if◌then◌else◌, get_or, set,
  replicate,
}

abbrev pub elves_no : ℕ
elves_no = 10

abbrev pub reindeers_no : ℕ
reindeers_no = 9

abbrev pub elves_req : ℕ
elves_req = 3

abbrev pub reindeers_req : ℕ
reindeers_req = 9

abbrev pub max_jobs : ℕ
max_jobs = 3

-- Where Santa is: before the lock, in pthread_cond_wait, signalled, out with the presents, with the elves, returned.
pub data SantaAt : Type 0 where
  starting : (jobs : ℕ) → SantaAt
  sleeping : (jobs : ℕ) → SantaAt
  signalled : (jobs : ℕ) → SantaAt
  delivering : (jobs : ℕ) → SantaAt
  helping : (jobs : ℕ) → SantaAt
  returned : SantaAt

pub data Reindeer : Type 0 where
  away : Reindeer
  harnessed : Reindeer
  called : Reindeer

pub data Elf : Type 0 where
  working : Elf
  queued : Elf
  admitted : Elf
  in_workshop : Elf
  dismissed : Elf

-- `locked`: a thread has returned with the mutex.
pub record Shared : Type 0 where
  pub locked : Bool
  pub santa_busy : Bool
  pub waiting_reindeers : ℕ
  pub waiting_elves : ℕ
  pub workshop : List ℕ
  pub santa : SantaAt
  pub elves : List Elf
  pub reindeers : List Reindeer

-- pthread_cond_signal(&cond_santa)
abbrev pub signal : SantaAt → SantaAt
signal (sleeping jobs) = signalled jobs
signal (starting jobs) = starting jobs
signal (signalled jobs) = signalled jobs
signal (delivering jobs) = delivering jobs
signal (helping jobs) = helping jobs
signal returned = returned

abbrev pub call : Reindeer → Reindeer
call away = away
call harnessed = called
call called = called

abbrev pub dismiss : Elf → Elf
dismiss working = working
dismiss queued = admitted
dismiss admitted = admitted
dismiss in_workshop = dismissed
dismiss dismissed = dismissed

-- pthread_cond_broadcast
abbrev pub broadcast {ℓ} : {A : Type ℓ} → (A → A) → List A → List A
broadcast wake [] = []
broadcast wake (t ∷ threads) = wake t ∷ broadcast wake threads

-- Santa's block from the test of `waiting_elves` on.
unfoldable pub santa_rest : ℕ → Shared → Shared
santa_rest jobs m =
    if m.waiting_elves == elves_req
    then record m { workshop = replicate elves_req 0; santa = helping jobs }
    else record m { santa_busy = false; santa = starting jobs }

-- Santa's block from the loop around pthread_cond_wait on.
unfoldable pub santa_check : ℕ → Shared → Shared
santa_check jobs m =
    if ltb m.waiting_reindeers reindeers_req && ltb m.waiting_elves elves_req
    then record m { santa = sleeping jobs }
    else (if m.waiting_reindeers == reindeers_req
        then record m { santa_busy = true; santa = delivering jobs }
        else santa_rest jobs (record m { santa_busy = true }))

-- Santa is back with the presents delivered.
unfoldable pub santa_back : ℕ → Shared → Shared
santa_back jobs m =
    let m' = record m { waiting_reindeers = 0; reindeers = broadcast call m.reindeers } in
    if jobs + 1 == max_jobs
    then record m' { santa = returned; locked = true }
    else santa_rest (jobs + 1) m'

unfoldable pub santa_turn : SantaAt → Shared → Shared
santa_turn (starting jobs) m = santa_check jobs m
santa_turn (sleeping jobs) m = m
santa_turn (signalled jobs) m = santa_check jobs m
santa_turn (delivering jobs) m = santa_back jobs m
santa_turn (helping jobs) m = record m {
  waiting_elves = 0;
  elves = broadcast dismiss m.elves;
  santa_busy = false;
  santa = starting jobs;
}
santa_turn returned m = m

unfoldable pub reindeer_turn : ℕ → Reindeer → Shared → Shared
reindeer_turn i away m =
    if m.waiting_reindeers + 1 == reindeers_req
    then record m {
      waiting_reindeers = m.waiting_reindeers + 1;
      santa = signal m.santa;
      reindeers = set (broadcast call m.reindeers) i harnessed;
    }
    else record m {
      waiting_reindeers = m.waiting_reindeers + 1;
      reindeers = set m.reindeers i harnessed;
    }
reindeer_turn i harnessed m = m
reindeer_turn i called m =
    if ltb 0 m.waiting_reindeers
    then record m { reindeers = set m.reindeers i harnessed }
    else record m { reindeers = set m.reindeers i away }

-- An elf's block behind its first loop. The identifier of elf `i` is i + 1.
unfoldable pub arrive : ℕ → Shared → Shared
arrive i m =
    if m.waiting_elves + 1 == elves_req
    then record m {
      waiting_elves = m.waiting_elves + 1;
      workshop = set m.workshop m.waiting_elves (i + 1);
      santa = signal m.santa;
      elves = set (broadcast dismiss m.elves) i in_workshop;
    }
    else record m {
      waiting_elves = m.waiting_elves + 1;
      workshop = set m.workshop m.waiting_elves (i + 1);
      elves = set m.elves i in_workshop;
    }

abbrev pub elf_enters : ℕ → Shared → Shared
elf_enters i m =
    if m.waiting_elves == elves_req then record m { elves = set m.elves i queued } else arrive i m

unfoldable pub elf_turn : ℕ → Elf → Shared → Shared
elf_turn i working m = elf_enters i m
elf_turn i queued m = m
elf_turn i admitted m = elf_enters i m
elf_turn i in_workshop m = m
elf_turn i dismissed m = record m { elves = set m.elves i working }

pub data Thread : Type 0 where
  the_santa : Thread
  the_elf : (i : ℕ) → Thread
  the_reindeer : (i : ℕ) → Thread

abbrev pub elf_at : List Elf → ℕ → Elf
elf_at elves i = get_or elves i queued

abbrev pub reindeer_at : List Reindeer → ℕ → Reindeer
reindeer_at reindeers i = get_or reindeers i harnessed

-- The turn of a thread, which comes only if it gets the mutex.
unfoldable pub unlocked_turn : Thread → Shared → Shared
unlocked_turn the_santa m = santa_turn m.santa m
unlocked_turn (the_elf i) m = elf_turn i (elf_at m.elves i) m
unlocked_turn (the_reindeer i) m = reindeer_turn i (reindeer_at m.reindeers i) m

abbrev pub turn : Thread → Shared → Shared
turn t m = if m.locked then m else unlocked_turn t m

unfoldable pub run : List Thread → Shared → Shared
run [] m = m
run (t ∷ schedule) m = run schedule (turn t m)

abbrev pub opening : Shared
opening = record {
  locked = false;
  santa_busy = false;
  waiting_reindeers = 0;
  waiting_elves = 0;
  workshop = replicate elves_req 0;
  santa = starting 0;
  elves = replicate elves_no working;
  reindeers = replicate reindeers_no away;
}
