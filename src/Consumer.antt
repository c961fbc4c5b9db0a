-- ===== src/Consumer.antt =====
-- lab05/src/producer.c and lab05/src/consumer.c: the bytes that producers write to a FIFO, and the rows
-- of the file that the consumer makes of them.
pub mod Rows
pub mod Received
pub mod Sent
mod Tests
use agh_sem4_sysopy.Common.{
  ℕ, zero, suc, ◌+◌, ◌-◌, Bool, true, false, ◌||◌, List, [], ◌∷◌, ◌++◌, ◌==◌, if◌then◌else◌, length,
  take, drop, replicate,
}
use agh_sem4_sysopy.Common.Int.{ℤ, pos, negsuc}
use agh_sem4_sysopy.Libc.Numbers.{strtol, to_int}

abbrev pub newline : ℕ
newline = 10

abbrev pub separator : ℕ
separator = 92

abbrev pub is_empty : List ℕ → Bool
is_empty [] = true
is_empty (c ∷ cs) = false

-- `main` of producer.c: what it writes of a file, `n` bytes at a time; a round reads a byte at least.
-- Each of its records is written under a lock.
unfoldable pub produce_rounds : ℕ → ℕ → List ℕ → List ℕ → List ℕ
produce_rounds zero n rowno file = []
produce_rounds (suc fuel) n rowno file = elim (is_empty (take n file)) [
  | true ↦ []
  | false ↦
      (rowno ++ (separator ∷ (take n file ++ (separator ∷ []))))
      ++ produce_rounds fuel n rowno (drop n file)
]

unfoldable pub produce : ℕ → List ℕ → List ℕ → List ℕ
unfolding produce_rounds
produce n rowno file = produce_rounds (length file + 1) n rowno file

-- The bytes up to a separator, and what is left. realloc extends the block where it is.
unfoldable pub readtosep : List ℕ → List ℕ × List ℕ
readtosep [] = ([], [])
readtosep (c ∷ cs) =
    let (bytes, rest) = readtosep cs in if c == separator then ([], cs) else (c ∷ bytes, rest)

-- A text in memory, up to its terminator.
unfoldable pub c_text : List ℕ → List ℕ
c_text [] = []
c_text (c ∷ cs) = if c == 0 then [] else c ∷ c_text cs

-- Bytes written to a file from its start on.
abbrev pub overwrite : List ℕ → List ℕ → List ℕ
overwrite old bytes = bytes ++ drop (length bytes) old

-- The two files, and `struct fileinfo`, whose `lines` is the length of `len`. `outside` is set by an
-- access to len[-1], or a row that is negative.
pub record Store : Type 0 where
  pub file : List ℕ
  pub tmp : List ℕ
  pub len : List ℕ
  pub outside : Bool

-- The sum over len[i] for i < rowno.
unfoldable pub offset : ℕ → List ℕ → ℕ
offset zero len = 0
offset (suc n) [] = 0
offset (suc n) (x ∷ xs) = x + offset n xs

unfoldable pub add_at : ℕ → ℕ → List ℕ → List ℕ
add_at i n [] = []
add_at zero n (x ∷ xs) = (x + n) ∷ xs
add_at (suc i) n (x ∷ xs) = x ∷ add_at i n xs

-- fileinfo->len[rowno - 1] += strlen(text)
unfoldable pub add_len : ℕ → ℕ → List ℕ → List ℕ
unfolding add_at
add_len zero n len = len
add_len (suc i) n len = add_at i n len

unfoldable pub writeaddline : List ℕ → ℤ → Store → Store
unfolding offset add_len
writeaddline text (negsuc n) s = record s { outside = true }
writeaddline text (pos rowno) s =
    let missing = suc rowno - length s.len in
    let original = s.file ++ replicate missing newline in
    let len = s.len ++ replicate missing 0 in
    let place = offset rowno len + rowno in
    let copy = overwrite s.tmp (take place original ++ (text ++ drop place original)) in
    record {
      file = overwrite original copy;
      tmp = copy;
      len = add_len rowno (length text) len;
      outside = s.outside || rowno == 0;
    }

-- The loop of `main`; each round but the last takes a byte.
unfoldable pub consume_rounds : ℕ → List ℕ → Store → Store
unfolding readtosep writeaddline c_text
consume_rounds zero fifo s = s
consume_rounds (suc fuel) fifo s =
    let (bytes, rest) = readtosep fifo in
    let (text, more) = readtosep rest in
    let written = writeaddline (c_text text) (to_int (strtol bytes)) s in
    elim (is_empty text) [ true ↦ written | false ↦ consume_rounds fuel more written ]

-- `main`, of what the FIFO holds and what the temporary file held before.
unfoldable pub consume : List ℕ → List ℕ → Store
unfolding consume_rounds
consume fifo tmp =
    consume_rounds (length fifo + 1) fifo
      (record { file = []; tmp = tmp; len = 0 ∷ []; outside = false })
