-- ===== src/Lib.antt =====
-- The laboratory programs of the repository, modelled program by program. Each program is a C program of
-- its own; they meet in a few shared parts: the two chats have a server and a client each, the array of
-- blocks has a shell over it, and four programs share one table look-up.
--
-- Files and what they model (paths from the repository's root):
--   Prelude        names of the libraries, lists as arrays, byte arrays with the calls of string.h and
--                  stdlib.h that the programs make (strlen, strcmp, memcpy, strtok, atoi), `int`.
--   Chat           lab10/zad1/server.c and message.h. `Server` has the table `clients`, the state of `mutex`
--                  and the list of what was written, closed and put on or off the epoll set. The functions
--                  have the names of the source; `on_event` is one round of `main` or of `ping`. The types and
--                  the outcomes are in Chat/State.
--   ChatClient     lab10/zad1/client.c: `on_stdin` is the parser of a typed line, `on_message` what a message
--                  of the server does. Both share `Message` with Chat.
--   ChatSession    server.c and client.c of lab10/zad1 together, on one typed line.
--   MsgQueue       lab6/zad1/server.c and headers.h. `Server` has `queues`, the counter and the global
--                  message; `dispatch` is the switch of `main`. Whether msgsnd takes a message is a
--                  parameter, a function of what was sent before. The types are in MsgQueue/State.
--   MsgClient      lab6/zad1/client.c: `connect` is the start, `on_round` one round of the loop.
--   MsgSession     the two of lab6/zad1 together: any number of clients, the server and its queue, step by step,
--                  with SIGINT at the clients.
--   Command        struct command, compare, qsort, bsearch and map_command_to_int, the same in
--                  lab1/zad2/zadanie2.c, lab4/zad1/zadanie1.c, lab5/zad1/program.c and lab6/zad1/client.c.
--   Blocks         lab1/zad1/memoryBlock.c; Blocks/Shell the loop of lab1/zad2/zadanie2.c over it,
--                  Blocks/Dynamic the one of lab1/zad2/zadanie2_dl.c, whose operations `dlsym` finds or not.
--   Search         lab3/zad3/zadanie3.c: a directory tree as mutual data types, and the child processes that
--                  walk over it, with the file that each of them runs.
--   Grid           lab8/zad01/lib/grid.c with the threads that it makes: `thread_work` is what one thread does
--                  between two signals, `run_threads` a sequence of such steps. Grid/Rounds has the threads with
--                  their pauses and signals and the loop of src/main.c as a step relation, and its runs.
--   Files          lab2/zad1/zamien.c, lab2/zad1/zamien2.c, lab2/zad2/reverse.c and reverse2.c: a file is its
--                  bytes, or none.
--   DirSize        lab2/zad3/countSize.c and lab2/zad4/zad4.c: the objects of a directory and what ftw visits
--                  are lists.
--   Signals        lab4/zad1/zadanie1.c: `Process` is what the kernel knows of the process and what it has
--                  printed; fork and exec make a process of another.
--   Handlers       lab4/zad2/zadanie2.c: the handlers with their flags and the depth of their calls.
--   Catcher        lab4/zad3/catcher.c and sender.c: both processes with the signals that wait for them, and
--                  the runs of the two together.
--   Integral       lab5/zad2/program.c, lab5/zad3/program.c and calculate.c: the cuts of the interval, the loops
--                  over the rectangles, the children with their pipes or the FIFO. `Double` has the
--                  operations on double that the code uses.
--   Mail           lab5/zad1/program.c: what the program runs through popen for its arguments.
--   Barber         lab7/zad1/v1: the shared memory and the four semaphores are the record `Shared`; each
--                  process is the line at which it stands; `step` is one turn of one process and
--                  `Reachable` the states that some sequence of turns reaches. Barber/Race has two calls of
--                  `queue_pop` at once.
--   Salon          lab7/zad1/v2/main.c: the set of semaphores is `Shared`, each client is the call it stands
--                  at.
--   Santa          lab9/zad1/main.c: the three monitors are `Shared`; the routine of each thread is a
--                  function of the place at which it stands; Santa/Workshop has the turns of them all.
--
-- How the code is read. Pure functions are functions by clauses. A handler that changes state takes the
-- state and gives an outcome: it returns, ends the process with a status, waits for a mutex for ever, or
-- goes outside an array (`fault`). What the kernel or the user gives (read, accept, msgrcv, scanf, the
-- time, the answer of msgsnd) is an argument. Uninitialised bytes that leave the process are arguments.
--
-- Fuel. `bsearch` has one more than the table's length, and each round at least halves the range that is
-- left; `decimal` has one more than the number, and each round drops a digit; the handlers of Handlers need
-- more than three times the calls that are left, which are at most four, so 13 is enough; the loops of
-- Integral need more than the number of rectangles; `copy_lines` of Mail has one more than the bytes that it
-- copies, and each round takes one at least; `blocks` of Files/Reverse2 has one more than the position, which
-- every round lowers. All other loops are by recursion on a list, on a tree
-- or on the count of rounds that are left.
--
-- Not modelled: what is printed or drawn where a file does not name it, the clocks, the making of sockets,
-- queues, semaphores and threads, lab3/zad1 and zad2, which are mostly calls of the kernel. `santa.mutex` of
-- lab9, which nothing locks, is left out. A push or a pop on the queue of lab7/zad1/v1 is one step in the runs of
-- all processes; the race of two pops is in Barber/Race.
pub mod Prelude
pub mod Chat
pub mod MsgQueue
pub mod Command
pub mod Blocks
pub mod Grid
pub mod Barber
pub mod MsgClient
pub mod ChatClient
pub mod Santa
pub mod Signals
pub mod Files
pub mod Handlers
pub mod Catcher
pub mod Salon
pub mod Search
pub mod Integral
pub mod Mail
pub mod ChatSession
pub mod MsgSession
pub mod DirSize
