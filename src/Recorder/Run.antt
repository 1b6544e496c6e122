-- ===== src/Recorder/Run.antt =====
-- `recorder_run` of recorder/recorder.c up to the loop of libuv, and `setup_event_instances` of
-- recorder/event.c.
pub mod Laws
use w_perf_archived.Base.{
  ℕ, Bool, true, false, Option, none, some, List, [], ◌∷◌, ◌++◌, if◌then◌else◌,
}
use w_perf_archived.Tracer.Text.{Bytes}
use w_perf_archived.Recorder.Paths.{
  create_instance_dir, create_instance_output, get_instance_input, get_instance_output,
}
use w_perf_archived.Recorder.Debugfs.{
  Write, Run, running, exited, basedir, instances, set_instances_bufsize, set_filter_and_enable,
}
use w_perf_archived.Recorder.Debugfs
use w_perf_archived.Recorder.Workers
use w_perf_archived.Recorder.Workers.{Config, setup_ioworkers, record_ioworkers, no_workers}
use w_perf_archived.Recorder.Expiry.{Recorder, started}

-- The rest of `struct config`.
pub record Settings : Type 0 where
  pub filter_expr : Option Bytes
  pub bufsize_kb : Bytes
  pub io : Config

-- What the program asks of libuv and of the memory, in its parts.
pub record Hosts : Type 0 where
  pub files : Debugfs.Host
  pub io : Workers.Host
  pub memory : Bool

-- The paths that `setup_event_instances` leaves in `instances_in` and `instances_out`; `none` is a
-- failed `assert`.
abbrev pub Pipes : Type 0
Pipes = Option (List (Bytes × Bytes))

abbrev pub add_pipe : Bytes × Bytes → Pipes → Pipes
add_pipe p none = none
add_pipe p (some ps) = some (p ∷ ps)

-- The loop over the instances.
unfoldable pub setup_instances : (Bytes → Bool) → Bytes → Bytes → List (Bytes × List Bytes) → Pipes
setup_instances mkdir output_dir base [] = some []
setup_instances mkdir output_dir base ((p, events) ∷ ps) =
    let rest = setup_instances mkdir output_dir base ps in
    if mkdir (create_instance_dir base p)
    then (if mkdir (create_instance_output output_dir p)
        then add_pipe (get_instance_input base p, get_instance_output output_dir p) rest
        else none)
    else none

unfoldable pub setup_event_instances : (Bytes → Bool) → Bytes → Pipes
unfolding setup_instances
setup_event_instances mkdir output_dir =
    if mkdir output_dir then setup_instances mkdir output_dir basedir instances else none

-- How `recorder_run` gets on: it runs the loop of libuv over the pipes, or returns -1, or the
-- program ends (by `exit` or a failed `assert`), or its behaviour is undefined.
pub data Start : Type 0 where
  looping : List (Bytes × Bytes) → Recorder → Start
  returned : Start
  stopped : Start
  undefined : Start

abbrev pub with_pipes : (List (Bytes × Bytes) → Start) → Pipes → Start
with_pipes f none = stopped
with_pipes f (some ps) = f ps

abbrev pub with_workers : (Workers.Workers → Start) → Workers.Outcome → Start
with_workers f (Workers.going w) = f w
with_workers f Workers.stopped = stopped
with_workers f Workers.undefined = undefined

abbrev pub with_writes : (List Write → Start) → Run → Start
with_writes f (running log) = f log
with_writes f (exited log) = stopped
with_writes f Debugfs.undefined = undefined

abbrev pub spawned : List (Bytes × Bytes) → List Write → Bool × Workers.Workers → Start
spawned ps log (false, w) = returned
spawned ps log (true, w) = looping ps (started w.worker_count log)

module _ (H : Hosts) (cf : Settings) where
  -- The calls of `recorder_run` from `record_events` on, which fails only where there is no memory
  -- for the contexts; and from each of the calls before it on.
  abbrev pub run_events : List (Bytes × Bytes) → Workers.Workers → List Write → Start
  run_events ps w log = if H.memory then spawned ps log (record_ioworkers H.io w) else returned

  abbrev pub run_filters : List (Bytes × Bytes) → Workers.Workers → List Write → Start
  run_filters ps w log =
      with_writes (run_events ps w) (set_filter_and_enable H.files cf.filter_expr log)

  abbrev pub run_bufsizes : List (Bytes × Bytes) → Workers.Workers → Start
  run_bufsizes ps w =
      with_writes (run_filters ps w) (set_instances_bufsize H.files cf.bufsize_kb [])

  abbrev pub run_workers : List (Bytes × Bytes) → Start
  run_workers ps = with_workers (run_bufsizes ps) (setup_ioworkers H.io cf.io no_workers)

  unfoldable pub recorder_run : Start
  recorder_run = with_pipes run_workers (setup_event_instances H.io.mkdir cf.io.output_dir)
