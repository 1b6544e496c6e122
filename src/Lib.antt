-- ===== src/Lib.antt =====
-- wPerf: a kernel module that traces who waits for whom, a recorder that copies the traces to files, and
-- an analyzer that adds up the waits.
--
-- The program has four parts. The module (module/trace_wperf_events.c and .h) puts probes into the
-- kernel: some emit trace events, and two groups count by themselves, the busy time of disks
-- (`disk_utils`) and the bytes that tasks send (`tx_stat`), behind the debugfs files `enable`, `filter`
-- and `output` of each. The recorder (recorder/*.c) sets up trace instances, copies their pipes to
-- files with libuv, and runs helpers. The analyzer (Go) reads the files offline,
-- breaks the time of each process into segments, and prints who waited for whom, and how long. The programs under
-- cases/ are workloads.
--
-- Files:
-- Base: names, Boolean tests, lists and integers that the others share.
-- Tracer/Text, Tracer/Kernel: C strings with strsep, strncpy and strncmp written out; the functions of
--   the kernel that the module calls (strstrip, kstrtoul, trace_seq_printf, the size of a page and of a
--   pid, time_after) as a record with the laws that are used; trace_seq_puts and trace_seq_nl.
-- Tracer/Disk: `dnames`, `dutils`, `didx` and `denabled` as the record Disk, with a flag for the probe
--   (`armed`), and the handlers dutils_* and on_part_round_stats_ent under their names.
--   Spec is what it promises, over lists without slots, and Refine that the handlers keep it; Race runs
--   a write to `enable` and one to `filter` at the same time, one statement after another.
-- Tracer/Tx: `tx_stats`, `filter` and `tx_enabled` as the record Tx, a function of the pid for the
--   array and for the bitmap, and the handlers tx_stats_* and on_*_ent under their names. Pids has sets of
--   pids, lists up to order and repetition; Spec is what it may answer and change, over such a set, and
--   Refine that the handlers keep to it; Race runs a write to `enable` and one to `filter` at the same time.
-- Tracer/Files: the generic file operations over a pair of handlers (`struct ev_ops`).
-- Tracer/Events, Tracer/Softirq: what the trace events store, and what the softirq probes keep of a CPU.
-- Tracer/Init: the tables of probes, and what loading and unloading ask of the kernel.
-- Recorder/Pump: one `struct event_ctx` of recorder/event.c; Steps is the relation of what libuv may
--   complete next, in any order and with any result.
-- Recorder/Paths, Recorder/Debugfs: the paths of recorder/defs.h, cut off as snprintf does, and the
--   writes to debugfs of recorder/event.c and recorder/recorder.c as a list, with the exit.
-- Recorder/Workers: recorder/ioworker.c, the table of the helpers and how often each is spawned.
-- Recorder/Expiry: the callbacks of the timer and of an interrupt, of recorder/recorder.c; Cycle is the
--   relation of all orders.
-- Recorder/Options: the defaults and the options of recorder/main.c.
-- Recorder/Run: recorder_run up to the loop of libuv, composed of the parts above. Recorder/Loop: the whole
--   loop, over the contexts, the timer, the signal and the helpers. Recorder/Program: `main` of
--   recorder/main.c, with the status that the program ends with.
-- Cases/Contention: the threads of cases/lock-contention-with-sleep/main.c and
--   cases/lock-contention-with-spin/main.c that share a counter, as a step of each thread from where it
--   stands; Safe has the relation of all interleavings. Cases/Program: the start of these threads.
--   Cases/Waiter: the thread that only waits, by itself.
-- Analyzer/Treemap: the tree map of the vendored library, as a parameter with the list of its entries.
-- Analyzer/Soft, Analyzer/States, Analyzer/Segments, Analyzer/Cascade: the softirqs of events/soft.go; the
--   switches of events/switch.go and the states, the segments and the wait-for graph of
--   process/process.go (under analyzer/src/analyzer/lib). Segments/Waits has what the scheduler does, and what
--   the module records of it. A map of Go is a function into Option, a panic
--   is `none` or `panics`.
-- Analyzer/Main, Analyzer/Files: the run of analyzer/src/analyzer/main.go over the lists that it has read, in
--   Main/History from what the scheduler did; these lists from the texts of the files, and the text of the
--   graph, with a reader of it in Files/Graph.
-- Tests: a concrete kernel and a concrete tree map, and the theorems at concrete inputs.
--
-- Conventions. A handler is a function of its state and arguments into the result and the new state;
-- `none` is undefined behaviour or a BUG_ON (a write past an array, a bit outside of the bitmap). A
-- result below 0 is `fail` with its errno. Unsigned and signed longs are kept as words below 2^64 with
-- `% 2 ^ 64` at each addition; their printing is a parameter. Each handler of a file is one
-- step, and so is each probe; the mutex is held around the handlers of `filter` and `output`, and not
-- around the writes of `enable`, whose overlap with a write to `filter` is in Tracer/Disk/Race and Tracer/Tx/Race. Loops
-- run over the list or the number that they count; `tokens` runs on fuel, the length of the text and one
-- more, and each call of strsep takes a byte away or ends; a walk of the analyzer runs on fuel, and so
-- many rounds as there are segments are enough, which are three for each event and one more at most.
-- `Cascade` runs on fuel for its depth, of which one call is used. In the recorder, closing is
-- synchronous, as the calls without a callback are.
--
-- Not modelled: the kernel, libuv, the printing of trace events, the JSON and the containers that the
-- analyzer takes from libraries, its command line and the reading of the frequency, the names and the joins of the
-- threads in cases/ and the effect of a wait there without the lock, the scripts, build files and data.
pub mod Base
pub mod Tracer
pub mod Recorder
pub mod Analyzer
pub mod Cases
pub mod Tests
