-- ===== src/Recorder/Debugfs.antt =====
-- What the recorder writes to debugfs: `__write_debugfs`, `write_debugfs`, `set_filter_and_enable`
-- and `set_instances_bufsize` of recorder/event.c, and `cleanup` of recorder/recorder.c.
-- A host is what libuv reports of the open, the write and the close of a file: the program exits at
-- the first that fails.
pub mod Laws
use w_perf_archived.Base.{Bool, true, false, Option, none, some, List, [], ◌∷◌, ◌++◌, if◌then◌else◌}
use w_perf_archived.Tracer.Text.{Bytes, codes}
use w_perf_archived.Recorder.Paths.{get_instance_filter, get_instance_enable, get_instance_bufsize}

-- A write that was made: the file, and the bytes that were handed over.
abbrev pub Write : Type 0
Write = Bytes × Bytes

-- How far `__write_debugfs` gets: which of its three calls fails, or none.
pub data Attempt : Type 0 where
  open_fails write_fails close_fails succeeds : Attempt

abbrev pub Host : Type 0
Host = Bytes → Bytes → Attempt

-- The program with the writes that it has made: going on, behind `exit(1)`, or after undefined
-- behaviour.
pub data Run : Type 0 where
  running : List Write → Run
  exited : List Write → Run
  undefined : Run

abbrev pub then_run : (List Write → Run) → Run → Run
then_run f (running log) = f log
then_run f (exited log) = exited log
then_run f undefined = undefined

-- A string constant or a copy of one, with its NUL: `uv_buf_init(s, strlen(s) + 1)`.
abbrev pub with_nul : Bytes → Bytes
with_nul s = s ++ 0 ∷ []

abbrev pub basedir : Bytes
basedir = codes "/sys/kernel/debug/tracing/instances"

-- `instances` with the row of `pevents` for each.
abbrev pub instances : List (Bytes × List Bytes)
instances =
    (
      codes "switch",
      codes "__switch_to"
          ∷ codes "try_to_wake_up"
          ∷ codes "wake_up_new_task"
          ∷ codes "do_exit"
          ∷ [],
    )
    ∷ (codes "softirq", codes "__do_softirq_ret" ∷ [])
    ∷ []

-- What an attempt leaves: a close that fails has the write behind it.
abbrev pub attempted : Write → List Write → Attempt → Run
attempted w log Attempt.open_fails = exited log
attempted w log Attempt.write_fails = exited log
attempted w log Attempt.close_fails = exited (log ++ w ∷ [])
attempted w log Attempt.succeeds = running (log ++ w ∷ [])

module _ (host : Host) where
  unfoldable pub __write_debugfs : Bytes → Bytes → List Write → Run
  __write_debugfs fname iov log = attempted (fname, iov) log (host fname iov)

  -- The inner loop of `write_debugfs`, over the events of an instance.
  unfoldable pub write_events : (Bytes → Bytes) → Bytes → List Bytes → List Write → Run
  unfolding __write_debugfs
  write_events get_fname iov [] log = running log
  write_events get_fname iov (q ∷ qs) log =
      then_run (write_events get_fname iov qs) (__write_debugfs (get_fname q) iov log)

  -- The outer loop.
  unfoldable pub write_instances :
      (Bytes → Bytes → Bytes) → Bytes → List (Bytes × List Bytes) → List Write → Run
  unfolding write_events
  write_instances get_fname iov [] log = running log
  write_instances get_fname iov ((p, events) ∷ ps) log =
      then_run (write_instances get_fname iov ps) (write_events (get_fname p) iov events log)

  unfoldable pub write_debugfs : Bytes → (Bytes → Bytes → Bytes → Bytes) → List Write → Run
  unfolding write_instances
  write_debugfs iov get_fname log = write_instances (get_fname basedir) iov instances log

  -- The option -f gives `filter_expr`; without it the copy is made of NULL.
  unfoldable pub set_filter_and_enable : Option Bytes → List Write → Run
  unfolding write_debugfs
  set_filter_and_enable none log = undefined
  set_filter_and_enable (some filter_expr) log =
      then_run (write_debugfs (with_nul (codes "1")) get_instance_enable)
        (write_debugfs (with_nul filter_expr) get_instance_filter log)

  -- The loop of `set_instances_bufsize`.
  unfoldable pub write_bufsizes : Bytes → List (Bytes × List Bytes) → List Write → Run
  unfolding __write_debugfs
  write_bufsizes iov [] log = running log
  write_bufsizes iov ((p, events) ∷ ps) log =
      then_run (write_bufsizes iov ps) (__write_debugfs (get_instance_bufsize basedir p) iov log)

  unfoldable pub set_instances_bufsize : Bytes → List Write → Run
  unfolding write_bufsizes
  set_instances_bufsize bufsize_kb log = write_bufsizes (with_nul bufsize_kb) instances log

  -- The writes of `cleanup` of recorder.c.
  unfoldable pub reset_events : List Write → Run
  unfolding write_debugfs
  reset_events log =
      then_run (write_debugfs (with_nul (codes "0")) get_instance_filter)
        (write_debugfs (with_nul (codes "0")) get_instance_enable log)
