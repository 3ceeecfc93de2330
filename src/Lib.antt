-- ===== src/Lib.antt =====
-- OS-in-Parts is a set of separate C programs on the parts of an operating system. This library
-- models them, but for those that only call the system. Each program is a component of its own, and
-- they share no state; what a module reads and prints are its argument and its result.
--
-- - Scheduler: Fork, Wait, Exec, Process Scheduling/q4.c. Process is `struct process_t` and
--   `input_processes`; Fifo, Sjf, Srtf and Rr are `fifo`, `sjf`, `srtf` and `rr`, Select is the
--   search that `sjf` and `srtf` share, and Main is the dispatch of `main`. `fifo` sorts its array,
--   which is a list; the others index theirs, which is a function of the index, below `n`. The local
--   variables of a scheduler are a record; the body of its loop is a function on that record.
-- - Segmentation: Segmentation, Paging, IPC/q2.c. `translateAddress` is translate_address.
-- - Paging: Segmentation, Paging, IPC/q3.c. The globals are the record Mmu; `check_tlb`,
--   `update_tlb` and `translate_address` keep their names, and an `exit(1)` is a fault.
-- - TwoLevel: Segmentation, Paging, IPC/q4.c. The globals, with the static `next_frame`, are the
--   record Machine. `handle_page_fault` is ensure_table, then ensure_frame with map_page; `load` and
--   `store` keep their names.
-- - Clock: Segmentation, Paging, IPC/q5.c. The globals are the record Clock;
--   `clock_algorithm` and `handle_page_request` keep their names.
-- - Servers: Multithreading/q2.c. The semaphores and the state of each thread are the record
--   Servers; a step is one call of `sem_wait` or `sem_post` in `server_func`, and Reached is any
--   interleaving of such steps.
-- - Disk: Hard Disk and File IO/q2.c. `find_nearest_request` and `simulate_sstf` keep their names.
-- - MergeSort: Segmentation, Paging, IPC/q1.c. `merge` keeps its three loops as merge_both,
--   copy_left and copy_right; `mergesort` starts both children from one array, and gather is what the
--   parent has read from their pipes.
-- - BinarySearch: Fork, Wait, Exec, Process Scheduling/q2.c. `binary_search` is what the last of the
--   child processes prints.
-- - TryLock: Multithreading/q1.c. A step is one `pthread_mutex_trylock` or `pthread_mutex_unlock` in
--   `thread_function`, or the pause of a round.
-- - Storage: Multithreading/q3.c. The globals and the place of each thread are the record Storage; a step
--   is one call or the work under the lock in `delivery_truck` or `storage_manager`. Ring is the
--   buffer, Invariant what the semaphores keep, Rounds the deliveries, Ends where a run ends.
-- - Threads: Multithreading/q4p1.c. Run has threads that are created, run and joined, for any work, and
--   Product the thread of an element, `compute_element`, the loops that create the threads, and the
--   sequential ones. ThreadPool uses Run for `parallel_matrix_multiplication`.
-- - Stations: Hard Disk and File IO/q1.c. `find_or_add_station`, `process_file_mmap` and
--   `process_file_fread` keep their names; a file is a list of bytes, and what is done with a `double`
--   is an argument, the instance Double.
-- - Redirect: Hard Disk and File IO/q4.c. `part1` and `part2` keep their names; the process with its
--   descriptors and its buffer is the record Process, and each call of the system is a function on it.
-- - Student: Hard Disk and File IO/q3.c. `main` is student_main, and a file is a list of bytes.
-- - Commands: Hard Disk and File IO/q5. Words is `count_words` of countw.c, Copy is `copy_file` of copy.c
--   on a file system in which a path names a file by its number, and Move is `move_directory` of move.c
--   on two trees of entries. What the file system makes of a directory in which a name is set is an
--   argument of Move.
-- - ThreadPool: Multithreading/q4p2.c. The queue is the record Pool with `add_task` and take_task, the
--   part of `worker_function` under the lock; Product has the work on a task and the loops of
--   `sequential_matrix_multiplication`. Parallel has `parallel_matrix_multiplication`, and Run the
--   workers of the pool while `main` adds tasks, in the runs in which the queue is never full.
-- - Prelude: arrays as lists and as functions, tests, integers, files as bytes, and names.
--
-- Bounds and fuel. An unsigned integer of w bits keeps its wrap-around, `% 2 ^ w`. The times of the
-- schedulers are numbers without a bound, and taken not to be negative; each theorem on a scheduler
-- has a condition under which no `int` of the program overflows. The totals of `fifo` are rounded to
-- 24 significant bits, as its `float`s are. The remaining burst of `srtf`, which can go below 0, is an integer. The loops
-- of `sjf`, `srtf`, `rr` and `clock_algorithm` run on fuel, as do the recursions of `mergesort` and
-- `binary_search`, and `none` is a loop that has not returned. `clock_algorithm` itself passes a round
-- for each frame; for the others the fuel is an argument, and the theorems name an amount that is
-- enough. The loops of Stations over a file have a round for each byte, and that of `copy_file` a round
-- more than the file has bytes. A step relation has no fuel: the theorems bound its number of
-- steps and say where a run ends. A sum of products is 32 bits wide and wraps around.
--
-- Not modelled: the averages and ratios, which are floating-point divisions of the sums and counters
-- that are modelled; the prompts; the parsing of numbers by `scanf`, `strtol` and `atoi`, whose
-- results are the inputs; `calloc` and `malloc` that return a null pointer; and the programs that
-- consist of calls of the system: Fork, Wait, Exec, Process Scheduling/q1.c, and list.c and main.c of
-- Hard Disk and File IO/q5.
pub mod Prelude
pub mod Scheduler
pub mod BinarySearch
pub mod Segmentation
pub mod Paging
pub mod TwoLevel
pub mod Clock
pub mod MergeSort
pub mod Servers
pub mod TryLock
pub mod Storage
pub mod ThreadPool
pub mod Threads
pub mod Disk
pub mod Stations
pub mod Student
pub mod Redirect
pub mod Commands
