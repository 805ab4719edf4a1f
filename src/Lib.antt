-- ===== src/Lib.antt =====
-- Verification of the C and C++ programs of this repository: a growing array (task1), a parallel matrix
-- multiplication with a worker pool and a chunked task queue, its sequential counterpart and a
-- demonstration of a race condition that a mutex prevents (task2), a song server and its client (task3),
-- and a chat server and its client (hw).
--
-- The parts, from the bottom up:
-- - Queue: task2/matrix_mul/queue.h and queue.c. A queue is a record with a heap of chunks beside it, at
--   addresses that a parameter, the C library's `malloc`, gives out or refuses. `create`, `add`, `take`
--   and `get`, `register_completion` and `free` are QUEUE_create, QUEUE_add, QUEUE_get (to the release of
--   `rw_mutex`, and whole), QUEUE_register_completion and QUEUE_free. A C function is a total function
--   into `Outcome`: `ok`, `wait` for a wait on a condition variable, `exit` for `exit(1)`, `fault` for
--   undefined behaviour. `Represents q xs` says that the linked chunks hold the list `xs`.
-- - Matrix, Product: matrix.h and the index of matrix.c, `multiply` of sequential.c and
--   `sub_multiplication_handler` of parallel.c, which share the body of their innermost loop.
--   `Matrix.Creation` is MATRIX_create, `create_matrix_array` of common.c and the beginning of `main`.
-- - Request: what `main` of parallel.c puts into the queue by `request_multiplication` and
--   `WP_request_stop`. `Request.Guard` is `request_multiplication` with its test of the dimensions.
-- - Pool: worker_pool.c and `main` of parallel.c as a step relation over the queue, the threads and the
--   products. A step of a thread is a critical section of the queue or one round of the handler's loop;
--   any thread that can take a step may be next. `Pool.End` is the end of `main`, behind `WP_join`.
-- - Log: MATRIX_print of matrix.c, the loop by which `main` of sequential.c and of parallel.c logs the
--   operations, and in `Log.Checker` task2/matrix_mul/check_answers.py, which reads that log. The decimal
--   numbers of `printf` and `int` of Python are parameters with the law that the one reads what the other
--   wrote, and numpy's test of a product is a parameter too.
-- - Operand, Arguments: `random_number` and `init_operand` of common.c with `rand` as a parameter, and
--   OPTIONS_set of options.c with `atoi` as a parameter.
-- - Race: task2/race_condition_moment.c as a step relation; `counter++` is a read and a write,
--   and `overflowed` tells that the counter has been counted beyond its `int`.
-- - Tank: task1/Tank.h and Tank.cpp, over a heap of arrays whose slots may never have been written, with
--   `malloc`, `realloc` and `sizeof(T)` as parameters. `create`, `resize`, `push_back`, `pop_back`, `at`,
--   `free_array` and `accumulate` have the names of the source. `Holds base h t xs` says that a tank holds
--   a list and that the rest of the heap is as it was; `Operation` and `run` are calls in a row.
-- - Server: task3/server.c. `Songs` is the search for the songs in a directory and the options, with the
--   directory's entries as a parameter, and `Songs.Copy` the copying of a path into its memory, byte by
--   byte; `Handler` is `handle_client` as the list of its effects, with the results of `recv`, `atoi`,
--   `fopen` and `send` as parameters; `Accept` is the loop of `main` that accepts clients, as a step
--   relation with the handlers as counters. `Player` is the client, task3/client.c, with the results of
--   `recv`, `popen` and `fwrite` as parameters, and `Player.Session` its `main` beside a handler of the
--   server.
-- - Chat: hw/server.cpp and hw/client.cpp. `Users` is the map from names to clients with the loops over it
--   and the list of users; `Message` is `get_message`, on what `poll` and `recv` give; `Settings` is the
--   constructor of `Options`, with `stoi` as a parameter; `Handler` is `handle_client` as a function from
--   phase to phase, in which a step looks into the map or changes it once; `Room` is `main` and the threads
--   of the clients as a step relation, in which the messages sent are a list, and `Room.Telling` the rounds
--   of the loop of `broadcast`; `Terminal` is hw/client.cpp, and `Terminal.System` its `main` and two
--   threads as a step relation, in which a thread that reads its parameter too late makes the run undefined.
-- - Sockets: the calls by which the servers and clients of task3 and hw open their sockets, with the
--   answers of the system as parameters. `Trial` is task3/trial/app_server.c and app_client.c, `Defaults`
--   the four programs where they are started without arguments.
-- - Prelude: Booleans, lists, integers and families over the native numbers, byte strings with their
--   order, and `Outcome`.
-- - Tests: runs of the code, and each theorem at a concrete input.
--
-- Fuel: `free_chunk` has a unit for each nested call, which are at most as many as chunks;
-- `request_multiplication` has one for each cell, and a round takes up at least one; `stream` has one for
-- each byte of the file and one for its end; `outgoing` of the chat client has one for each line, and the
-- theorems on it say for how many; `check` of check_answers.py has one for each line, and a round reads at
-- least one. Numbers are unbounded, `int` and `long long` do not wrap, but the counter of
-- Race records its overflow; the `std::size_t` of Tank wraps at 2^64.
--
-- Not modelled: the mutexes and condition variables of the queue themselves (a critical section is one
-- step, and a signal is never lost), refusals of `malloc` other than for chunks, matrices, tanks and paths,
-- the clocks, the opening and closing of the log files, MATRIX_free and `free_matrix_array`,
-- `free_song_paths` of task3/server.c, a `pthread_create` of hw/client.cpp that fails, and graphit.py. The
-- theorems on the multiplication take the matrices as given, since `main` does not come to have any
-- without undefined behaviour. `Tank` is for a type that is moved by copying its bytes. The threads of
-- hw/server.cpp share the map of users without a lock. The model has the steps of different threads between
-- one access to the map and the next, and says nothing on accesses that overlap, which are undefined
-- behaviour; the loop of `get_userlist` is one step, and the loop at the end of `main` of hw/server.cpp that
-- closes the clients is left out.
pub mod Prelude
pub mod Queue
pub mod Matrix
pub mod Product
pub mod Arguments
pub mod Operand
pub mod Request
pub mod Pool
pub mod Log
pub mod Race
pub mod Tank
pub mod Server
pub mod Chat
pub mod Sockets
pub mod Tests
