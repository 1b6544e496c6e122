-- ===== src/Recorder/Run/Laws.antt =====
-- What `recorder_run` comes to before the loop.
use w_perf_archived.Base.{
  ℕ, ◌≡◌, ◌≢◌, ◌∙◌, sym, refl, ap, Bool, true, false, none, some, List, [], ◌∷◌, ◌++◌, All,
  if◌then◌else◌, append_assoc, append-nil,
}
use w_perf_archived.Tracer.Text.{Bytes}
use w_perf_archived.Recorder.Paths.{get_instance_input, get_instance_output, get_instance_bufsize}
use w_perf_archived.Recorder.Debugfs.{
  Attempt, Write, Run, running, exited, with_nul, basedir, instances, write_bufsizes,
  __write_debugfs, set_instances_bufsize, set_filter_and_enable,
}
use w_perf_archived.Recorder.Debugfs.Laws.{setup_writes, set_filter_and_enable-done}
use w_perf_archived.Recorder.Debugfs
use w_perf_archived.Recorder.Workers
use w_perf_archived.Recorder.Workers.{
  Config, cal_worker_count, setup_ioworkers, record_ioworkers, no_workers,
}
use w_perf_archived.Recorder.Workers.Laws.{IsReady, expected, setup_ioworkers-expected, all_spawned}
use w_perf_archived.Recorder.Expiry.{Recorder, started}
use w_perf_archived.Recorder.Run.{
  Settings, Hosts, Pipes, setup_instances, setup_event_instances, Start, looping, returned, stopped,
  undefined, with_pipes, with_workers, with_writes, spawned, recorder_run, run_workers,
  run_bufsizes, run_filters,
}

-- The writes of `set_instances_bufsize`.
abbrev pub bufsize_writes : Bytes → List (Bytes × List Bytes) → List Write
bufsize_writes kb [] = []
bufsize_writes kb ((p, events) ∷ ps) =
    (get_instance_bufsize basedir p, with_nul kb) ∷ bufsize_writes kb ps

-- The pipe and the file of each instance.
abbrev pub pipes_of : Bytes → List (Bytes × List Bytes) → List (Bytes × Bytes)
pipes_of out [] = []
pipes_of out ((p, events) ∷ ps) =
    (get_instance_input basedir p, get_instance_output out p) ∷ pipes_of out ps

write_bufsizes-done :
    (host : Debugfs.Host) (kb : Bytes) (ps : List (Bytes × List Bytes)) (log : List Write)
    → All (λ w. host w.0 w.1 ≡ Attempt.succeeds) (bufsize_writes kb ps)
    → write_bufsizes host (with_nul kb) ps log ≡ running (log ++ bufsize_writes kb ps)
unfolding write_bufsizes __write_debugfs
write_bufsizes-done host kb [] log h = ap running (sym (append-nil log))
write_bufsizes-done host kb ((p, events) ∷ ps) log (h, hs) = rw h (
    write_bufsizes-done host kb ps _ hs
    ∙ ap running (
        append_assoc log ((get_instance_bufsize basedir p, with_nul kb) ∷ [])
          (bufsize_writes kb ps)))

setup_instances-done :
    (mkdir : Bytes → Bool) (out : Bytes) (ps : List (Bytes × List Bytes))
    → ((f : Bytes) → mkdir f ≡ true)
    → setup_instances mkdir out basedir ps ≡ some (pipes_of out ps)
unfolding setup_instances
setup_instances-done mkdir out [] h = refl
setup_instances-done mkdir out ((p, events) ∷ ps) h = rw (h, h, setup_instances-done mkdir out ps h)

module _ (H : Hosts) (fd : Bytes → ℕ) (ready : IsReady H.io fd) (cf : Settings) where
  abbrev all_setup : Bytes → List Write
  all_setup expr = bufsize_writes cf.bufsize_kb instances ++ setup_writes H.files expr

  pipes_done :
      setup_event_instances H.io.mkdir cf.io.output_dir ≡ some (pipes_of cf.io.output_dir instances)
  unfolding setup_event_instances
  pipes_done =
      rw (ready.mkdir) (setup_instances-done H.io.mkdir cf.io.output_dir instances ready.mkdir)

  spawned-started :
      (ps : List (Bytes × Bytes)) (log : List Write) (w : Workers.Workers)
      → spawned ps log (record_ioworkers H.io w) ≡ looping ps (started w.worker_count log)
  spawned-started ps log w = ap (spawned ps log) (all_spawned H.io w ready.spawn)

  with_memory : (s : Start) → H.memory ≡ true → (if H.memory then s else returned) ≡ s
  with_memory s h = rw h refl

  filters_done :
      (expr : Bytes)
      → cf.filter_expr ≡ some expr
      → All (λ w. H.files w.0 w.1 ≡ Attempt.succeeds) (setup_writes H.files expr)
      → set_filter_and_enable H.files cf.filter_expr (bufsize_writes cf.bufsize_kb instances)
        ≡ running (all_setup expr)
  filters_done expr e h =
      ap (λ x. set_filter_and_enable H.files x (bufsize_writes cf.bufsize_kb instances)) e
      ∙ set_filter_and_enable-done H.files expr _ h

  sizes_done :
      All (λ w. H.files w.0 w.1 ≡ Attempt.succeeds) (bufsize_writes cf.bufsize_kb instances)
      → set_instances_bufsize H.files cf.bufsize_kb []
        ≡ running (bufsize_writes cf.bufsize_kb instances)
  unfolding set_instances_bufsize
  sizes_done h = write_bufsizes-done H.files cf.bufsize_kb instances [] h

  -- On a host where all succeeds, with a filter expression and with lists that are served:
  -- `recorder_run` reaches the loop of libuv, with the pipe and the file of each instance, with
  -- both handles active and the workers of the lists, behind the writes of the buffer sizes, of the
  -- filters and of the flags, in this order.
  pub recorder_run-looping :
      (expr : Bytes) (w : Workers.Workers)
      → cf.filter_expr ≡ some expr
      → expected H.io fd ready cf.io.output_dir cf.io.disk_list cf.io.nic_list ≡ Workers.going w
      → H.memory ≡ true
      → All (λ w. H.files w.0 w.1 ≡ Attempt.succeeds) (bufsize_writes cf.bufsize_kb instances)
      → All (λ w. H.files w.0 w.1 ≡ Attempt.succeeds) (setup_writes H.files expr)
      → recorder_run H cf
        ≡ looping (pipes_of cf.io.output_dir instances) (
            started w.worker_count
              (bufsize_writes cf.bufsize_kb instances ++ setup_writes H.files expr))
  unfolding recorder_run
  recorder_run-looping expr w f io mem hb hs =
      let workers =
        setup_ioworkers-expected H.io fd ready cf.io.output_dir cf.io.disk_list cf.io.nic_list in
      rw (pipes_done, workers, io, sizes_done hb, filters_done expr f hs, mem)
        (spawned-started (pipes_of cf.io.output_dir instances) (all_setup expr) w)

is_looping : Start → Bool
is_looping (looping ps r) = true
is_looping returned = false
is_looping stopped = false
is_looping undefined = false

abbrev Idle : Start → Type 0
Idle s = is_looping s ≡ false

Idle-with_pipes :
    (f : List (Bytes × Bytes) → Start) (o : Pipes)
    → ((ps : List (Bytes × Bytes)) → Idle (f ps))
    → Idle (with_pipes f o)
unfolding is_looping
Idle-with_pipes f none h = refl
Idle-with_pipes f (some ps) h = h ps

Idle-with_workers :
    (f : Workers.Workers → Start) (o : Workers.Outcome)
    → ((w : Workers.Workers) → Idle (f w))
    → Idle (with_workers f o)
unfolding is_looping
Idle-with_workers f (Workers.going w) h = h w
Idle-with_workers f Workers.stopped h = refl
Idle-with_workers f Workers.undefined h = refl

Idle-with_writes :
    (f : List Write → Start) (o : Run)
    → ((log : List Write) → Idle (f log))
    → Idle (with_writes f o)
unfolding is_looping
Idle-with_writes f (running log) h = h log
Idle-with_writes f (exited log) h = refl
Idle-with_writes f Debugfs.undefined h = refl

no_filter-Idle : (H : Hosts) (cf : Settings) → cf.filter_expr ≡ none → Idle (recorder_run H cf)
unfolding recorder_run set_filter_and_enable is_looping
no_filter-Idle H cf e = Idle-with_pipes (run_workers H cf) _ (λ ps.
    Idle-with_workers (run_bufsizes H cf ps) _
      (λ w. Idle-with_writes (run_filters H cf ps w) _ (λ log. rw e refl)))

-- Without the option for the filter expression `recorder_run` never reaches the loop of libuv,
-- whatever the host does.
pub recorder_run-no_filter :
    (H : Hosts) (cf : Settings) (ps : List (Bytes × Bytes)) (r : Recorder)
    → cf.filter_expr ≡ none
    → recorder_run H cf ≢ looping ps r
unfolding is_looping
recorder_run-no_filter H cf ps r e eq =
    let same = sym (ap is_looping eq) ∙ no_filter-Idle H cf e in cc
