-- ===== src/Lib.antt =====
-- The programs of the course in operating systems, modelled part by part: a server for noughts and
-- crosses with its clients, a chat over message queues with its server and its clients, a pizzeria
-- of cooks and suppliers over semaphores, the negation of an image by threads, Santa with his elves
-- and reindeer, pipelines of commands, producers and a consumer on a FIFO, the merging of text files,
-- and tools for lines of text.
--
-- Libraries the parts share
--   Common (Common/*): the tests on numbers, lists that are indexed and written like C arrays, the
--     search for a first entry and the loop that shifts an array down, sums over a list, and the C
--     `int` (Common.Int).
--   Libc (Libc/*): strcmp, strncmp, strncpy, printf's %d, strtol, fgets on a file and strtok, as far
--     as the programs use them. A file is its text; Libc.Input's loops over it are given as many
--     rounds as it has characters, and each takes one.
--
-- Noughts and crosses over TCP (lab10/tcp/src): TicTac
--   Message and Server hold utils.h: the message, its union, and the table of at most 16 clients.
--   Board is `check_board` and `check_line` of server.c, in 8-bit characters; Board/Winner is about
--     the lines.
--   Table is `accepting_routine` with check_username, create_client, connect_pending and
--     disconnect_client, under clients_mutex; Table/Search, Table/Invariant and Table/Joining are
--     about it.
--   Game is `game_connection`, the thread of a pair: a list of answers stands for what `read`
--     returns, and a game that has no answer left waits in `read`. Game/Steps, Game/Fair,
--     Game/Ending and Game/Draw are about it.
--   Pinger is a round of `pinger_routine`; what epoll_wait and read return are arguments.
--   Player is the loop of client.c and its handlers. The descriptors a server writes to are
--     recorded with the messages, which is how Player/Verdict joins the two programs.
--
-- Chat (lab06/src): Chat
--   Server is SystemV/server.c: the array of clients, the handlers of the five messages, `main`'s
--     switch and exit_handler. The process id and the queues that take a message are parameters;
--     what is sent is a log, newest first; `exits` is the end of the process. Server/Registry is
--     about the array, Server/Pairing about two clients who talk, Server/Distinct about the ids.
--   Posix is POSIX/server.c, whose queues have paths. Message is SystemV/communication.h.
--   Client is SystemV/client.c and POSIX/client.c, a machine over the events that the clients wait
--     for: a line that is typed, a message that is there, a signal. What the two programs do
--     differently is a Variant (Client/Variants). Client/Protocol is a specification of what a client
--     may send to the server, in phases, Client/Guard what holds at each of its places,
--     Client/Session about both, and Client/Talk about what is typed. Client/Meet joins two clients
--     and the server, and Client/OverPosix does it for POSIX; Client/Places and Client/Steps hold
--     their steps.
--
-- Pizzeria (lab07/src): Pizzeria
--   Kitchen is SystemV: `make_pizza` of cook.c and `deliver` of supplier.c as step relations on the
--     shared memory and the semaphores, for any number of processes, which interleave a statement
--     at a time; `x++` on shared memory is one step, and so is a semop on two semaphores. A cook's
--     search loop has no bound in the code and none in the model: a read past the end of the array
--     has no step.
--   Oven (Oven/Defs, Oven/Moves, Oven/Safety) is about the oven, Table about the table.
--   Posix is POSIX: the same loops over named semaphores, where each sem_wait and sem_post is a
--     step, and so is each access to the shared memory; `x++`, which is not under exclusion there, is
--     a read and a write. Posix/Counts holds the counts of the cooks at each place, Posix/Laws what
--     the semaphores admit.
--
-- Image negation (lab08/src): Negate
--   Image is `struct image` of utils.h with the arithmetic on a cell. Numbers and Blocks are the
--     start routines of negate.c: a state is the image and where each thread stands, and a
--     schedule, the list of the threads in the order of their turns, is run by a function. A
--     schedule may be too short, or name a thread that has left its loop, whose turn then changes
--     nothing. `val` reads a cell twice, and another thread may turn it in between; AllSteady says of
--     a schedule that it finds the cell as bright as before. Numbers/Terminates and
--     Blocks/Terminates are about the end of the loops, Methods about the two routines.
--   Files is load_image and save_image, over the text of the file: comments, header and cells.
--     Program is main with its options, from the text of one file to that of the other, in which the
--     schedule of the threads is an argument.
--
-- Santa (lab09/src): Santa
--   Santa is main.c: what a thread does between taking the mutex and giving it up, in unlock or in
--     pthread_cond_wait, is one turn; `run` takes the turns in a given order. A broadcast moves all
--     who wait. Counts, Arrivals and Harness are about the turns of Santa, the elves and the
--     reindeer, Laws about all of them.
--
-- Pipelines (lab05/src/ex1.c): Pipes
--   Trim is ltrim, rtrim, trim and cntchr; Commands is the commands, getcommand, getargs,
--     appendargs, the assembly in exec, and parsefile, with one round for each argument or line.
--     Commands/Entries says what a line means. Spawn is the loop of exec that starts the processes:
--     a state is the descriptors that the parent and each process hold.
--
-- Producer and consumer (lab05/src/producer.c, lab05/src/consumer.c): Consumer
--   The FIFO is the bytes on it; a loop over them is given a round more than there are bytes.
--     Consumer is the loop of the producer, readtosep, writeaddline with its temporary file, and the
--     loop of the consumer, in which realloc leaves a block where it is. Rows is the file as rows of
--     text, Received the consumer on records in any order, Sent the two programs together.
--
-- Text tools (lab02/src/lib): Tools
--   Lines is fgetline, stringSize, merge and filterWithSign, Numbers is numberSize and
--     filterNumbers, and Numbers/Meant what its conditions mean; Breaking is breakLines, Replacing is
--     replace. A file is the bytes that are not read yet; a loop over its lines is given a round more
--     than the file has bytes, and merge one for the end of each file. An access outside a buffer
--     that calloc gives has no result in breakLines and replace; fgetline's strcat of one char is
--     taken to find a zero behind it. Output is what is written to a file that was empty; an open of
--     the build over read and write keeps what a file had.
--
-- Merging files (lab01/src/lib): Merge
--   Files is what lib_merge.c does with the bytes of a file: the loop of `merge`, which is given
--     one round more than the files have bytes, divide_files_pair, countlines and read_block's
--     loop. Blocks is `struct block` and the functions on an array of blocks; where one follows a
--     null pointer, leaves an array or prints a string that has no terminator, it has no result.
--     Interleaved, Laws and Adding are about them.
--
-- Machine integers wrap where the code's types do (`unsigned char` of the board and the image,
-- `int` counters of the pizzeria as 32-bit patterns); a C `int` that may be negative is an integer
-- of Common.Int.
--
-- Not modelled: sockets, epoll, the creation and removal of semaphores, queues and shared memory,
-- clocks, sleeping and printing, execvp and the waiting for processes, which are calls of the
-- operating system; the UDP server and its client, the drivers and benchmarks of lab01 and lab02,
-- the programs of lab03 and lab04, the mail program of lab05, kol1 and kol2.
pub mod Common
pub mod Libc
pub mod TicTac
pub mod Chat
pub mod Pizzeria
pub mod Negate
pub mod Santa
pub mod Merge
pub mod Pipes
pub mod Tools
pub mod Consumer
