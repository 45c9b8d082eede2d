-- ===== src/Lib.antt =====
-- A verification library for the matching engine and its measurement tools: the order book, the
-- ring between its threads, the memory pool, the recorder of benchmark studies, the diagnostic
-- recorder, and the two reports.
--
-- The parts, and the files that model them:
--
-- * Prelude, Effects: shared names. Prelude/Lists has the list functions over native numbers,
--   Prelude/Sets lists read as sets, Prelude/Int signed integers; Effects has Python's statements
--   that change a state and may raise, `try … finally`, and the rules by which a property is
--   carried through them; Effects/Checks has those for checks without a state.
-- * Engine, the C++ core. Engine/Ring (include/spsc_ring_buffer.h) is the ring between one producer
--   and one consumer thread: a step is one access of one of them, a schedule a list of turns, and
--   Ring/Refines relates each step to a bounded queue. Engine/Pool (include/memory_pool.h) is the
--   pool of slots with its free list. Engine/Order (include/order.h) has orders and trades,
--   Engine/Level the price level of include/order_book.h with its cursor and holes, and Engine/Book
--   the book: the matching loops of `match_noalloc`, and in Book/Calls `add_order_noalloc`,
--   `add_order`, `cancel_order`, the queries and `clear` (src/order_book.cpp). Book/Walk states
--   what price-time priority means, and Book/Priority that the loops do it.
-- * Recorder (scripts/record/bench_record.py). Recorder/Affinity is `affinity_baseline` and
--   `apply_affinity`: a pass over the user's tasks that gives each its baseline CPUs less those
--   measured. Recorder/Cpus is `cpu_list`. Recorder/Launch is `launch` and `kill_launch_session`:
--   it runs one binary, reads its output into marks, and cleans up after a failure. Recorder/Output
--   is `intervals` and `latency_reports`, which read the output and the marks, and Recorder/Samples
--   `samples`, which reads the times. Recorder/Telemetry is `read_cpu_table` and `read_throttle`,
--   which add up counters, Telemetry/Record the other readings, and Telemetry/Snapshot `snapshot`
--   and the record that `launch` makes of two of them. Recorder/Schedule is the rotation of
--   binaries and conditions, and Recorder/Study the life of a study: `session`, `one`, `leave` and
--   the `try` of `main`.
-- * Diagnose (scripts/record/bench_diagnose.py). Diagnose/Study is `DiagnosticStudy`: `session`,
--   `clear`, `one`, `leave`, and the `try` of `main`. It calls the recorder's affinity pass and
--   launches. Diagnose/Matrix is `load_matrix`, which reads and checks the conditions of a study,
--   and Diagnose/Repetitions the check of a launch's samples in `one`.
-- * Report (scripts/report/bench_report.py): `ranks`, `median`, `spread` (Report/Extremes),
--   `p_value` and `rank_sum_test` (Report/Permutation), `launch_test` and `group_test`
--   (Report/Launches), `spearman` and `trend_test` (Report/Trend), `tier_threshold` and
--   `tier_summary` (Report/Tiers), and `latency_groups`.
-- * Summary (scripts/report/diagnose_report.py): the checks of `summarize` and its grouping of the
--   samples. Summary/Grouping is a default dictionary of lists, Summary/Scores the table of
--   benchmarks, Summary/Telemetry that of what disturbed the launches, and Summary/Tables
--   `summarize` with both. Summary/Layout is `raw_files` and the observations of `layout_rows`,
--   Summary/Layout/Table its rows.
--
-- How state is modelled. The book's orders are objects in memory: pointers are numbers, and the
-- levels, the index and the caller share them. `match` and `match_noalloc` are one function with
-- the deallocator as its parameter; the index is an interface for absl's hash map. The ring's two
-- threads interleave access by access, each load seeing the latest store. A study's state is a
-- record of its Python fields and of a trace of what was done to the machine, newest first. What
-- the machine answers (exit statuses, CPUs, counts of tasks, exceptions) is a function of the trace
-- before, so nothing is assumed of it that a theorem does not name. The kernel's masks are an
-- abstract state with its three calls. A launch's output is the sequence of polls that its loop
-- meets; it is finite, since a launch that neither ends nor is interrupted or timed out does not
-- return.
--
-- Numbers. Prices are signed; quantities are natural numbers, as the book's precondition asks, and
-- a filled quantity never passes its order's. The ring's mask is a remainder by its capacity. Times
-- and counters are natural numbers (nanoseconds, ticks) and their differences signed integers.
-- Floats are an interface, Report/Floats: an order that is total on the finite numbers of a study,
-- and for the median that the mean of two numbers lies between them; both hold of whole numbers
-- with a division that rounds down, which the tests use. Ranks are multiples of one half and are
-- kept doubled. Names, paths and identifiers that the programs only compare are numbers.
--
-- Fuel. The loop over the runs of `ranks` has fuel, one for each value; each round takes at least
-- one value, and the theorem on `ranks` holds with this fuel. The loops of the book have a round
-- for each order of a level and for each level, and one more for the last test: a round takes an
-- order or a level away, or fills the incoming order. All other loops follow their lists.
--
-- Not modelled: files, log lines and printed tables; `prepare`, which builds the binaries; the
-- regular expressions, whose matches are parameters. In the recorder's study an exception or a
-- signal arrives during a capture of the environment, a launch, or the reading of its samples, and
-- in the diagnostic study wherever the machine's answers allow one; a signal inside the recorder's
-- own `leave` is outside of the model. Of the C++ sources the engine's threads, the trade buffer's
-- storage (the trades are a list in the order in which they are written), the feed simulator and
-- the placement of threads are not modelled, nor are memory orders weaker than the interleaving of
-- accesses.
pub mod Prelude
pub mod Effects
pub mod Engine
pub mod Recorder
pub mod Report
pub mod Summary
pub mod Diagnose
