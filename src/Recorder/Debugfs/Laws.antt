-- ===== src/Recorder/Debugfs/Laws.antt =====
-- The writes to debugfs, against the flat list of the files.
use w_perf_archived.Base.{
  ◌≡◌, ◌≢◌, ◌∙◌, sym, refl, ap, All, some, List, [], ◌∷◌, ◌++◌, append-nil, append_assoc,
}
use w_perf_archived.Tracer.Text.{Bytes, codes}
use w_perf_archived.Recorder.Paths.{get_instance_filter, get_instance_enable}
use w_perf_archived.Recorder.Debugfs.{
  Write, Host, Attempt, attempted, __write_debugfs, Run, running, exited, undefined, then_run,
  with_nul, basedir, instances, write_events, write_instances, write_debugfs, set_filter_and_enable,
  reset_events,
}

-- The writes of `iov` to the events of the instances, one after the other.
abbrev pub event_writes : (Bytes → Bytes) → Bytes → List Bytes → List Write
event_writes get_fname iov [] = []
event_writes get_fname iov (q ∷ qs) = (get_fname q, iov) ∷ event_writes get_fname iov qs

abbrev pub instance_writes :
    (Bytes → Bytes → Bytes) → Bytes → List (Bytes × List Bytes) → List Write
instance_writes get_fname iov [] = []
instance_writes get_fname iov ((p, events) ∷ ps) =
    event_writes (get_fname p) iov events ++ instance_writes get_fname iov ps

abbrev pub all_writes : Bytes → (Bytes → Bytes → Bytes → Bytes) → List Write
all_writes iov get_fname = instance_writes (get_fname basedir) iov instances

then_run-ext :
    {f g : List Write → Run} (r : Run)
    → ((l : List Write) → f l ≡ g l)
    → then_run f r ≡ then_run g r
then_run-ext (running l) h = h l
then_run-ext (exited l) h = refl
then_run-ext undefined h = refl

then_run-then_run :
    (f g : List Write → Run) (r : Run)
    → then_run (λ l. then_run f (g l)) r ≡ then_run f (then_run g r)
then_run-then_run f g (running l) = refl
then_run-then_run f g (exited l) = refl
then_run-then_run f g undefined = refl

-- What an attempt that does not succeed leaves of its write.
abbrev pub left_of : Write → Attempt → List Write
left_of w Attempt.close_fails = w ∷ []
left_of w _ = []

module _ (host : Host) where
  -- Make the writes of a list, up to the first that the host does not let succeed.
  unfoldable pub make_writes : List Write → List Write → Run
  make_writes [] log = running log
  make_writes (w ∷ ws) log = then_run (make_writes ws) (attempted w log (host w.0 w.1))

  make_writes-append :
      (us ws : List Write) (log : List Write)
      → make_writes (us ++ ws) log ≡ then_run (make_writes ws) (make_writes us log)
  unfolding make_writes
  make_writes-append [] ws log = refl
  make_writes-append (u ∷ us) ws log =
      then_run-ext (attempted u log (host u.0 u.1)) (make_writes-append us ws)
      ∙ then_run-then_run (make_writes ws) (make_writes us) (attempted u log (host u.0 u.1))

  write_events-make_writes :
      (get_fname : Bytes → Bytes) (iov : Bytes) (qs : List Bytes) (log : List Write)
      → write_events host get_fname iov qs log ≡ make_writes (event_writes get_fname iov qs) log
  unfolding write_events __write_debugfs make_writes
  write_events-make_writes get_fname iov [] log = refl
  write_events-make_writes get_fname iov (q ∷ qs) log =
      then_run-ext (attempted (get_fname q, iov) log (host (get_fname q) iov))
        (write_events-make_writes get_fname iov qs)

  write_instances-make_writes :
      (get_fname : Bytes → Bytes → Bytes) (iov : Bytes) (ps : List (Bytes × List Bytes))
      (log : List Write)
      → write_instances host get_fname iov ps log
        ≡ make_writes (instance_writes get_fname iov ps) log
  unfolding write_instances make_writes
  write_instances-make_writes get_fname iov [] log = refl
  write_instances-make_writes get_fname iov ((p, events) ∷ ps) log =
      ap (then_run (write_instances host get_fname iov ps))
        (write_events-make_writes (get_fname p) iov events log)
      ∙ then_run-ext (make_writes (event_writes (get_fname p) iov events) log)
          (write_instances-make_writes get_fname iov ps)
      ∙ sym (
          make_writes-append (event_writes (get_fname p) iov events)
            (instance_writes get_fname iov ps) log)

  -- All the writes of `set_filter_and_enable`: the filters before the flags.
  abbrev pub setup_writes : Bytes → List Write
  setup_writes expr =
      all_writes (with_nul expr) get_instance_filter
      ++ all_writes (with_nul (codes "1")) get_instance_enable

  abbrev pub reset_writes : List Write
  reset_writes =
      all_writes (with_nul (codes "0")) get_instance_enable
      ++ all_writes (with_nul (codes "0")) get_instance_filter

  write_both :
      (iov iov' : Bytes) (get get' : Bytes → Bytes → Bytes → Bytes) (log : List Write)
      → then_run (write_debugfs host iov' get') (write_debugfs host iov get log)
        ≡ make_writes (all_writes iov get ++ all_writes iov' get') log
  unfolding write_debugfs
  write_both iov iov' get get' log =
      ap (then_run (write_instances host (get' basedir) iov' instances))
        (write_instances-make_writes (get basedir) iov instances log)
      ∙ then_run-ext (make_writes (all_writes iov get) log)
          (write_instances-make_writes (get' basedir) iov' instances)
      ∙ sym (make_writes-append (all_writes iov get) (all_writes iov' get') log)

  make_writes-done :
      (ws log : List Write)
      → All (λ w. host w.0 w.1 ≡ Attempt.succeeds) ws
      → make_writes ws log ≡ running (log ++ ws)
  unfolding make_writes
  make_writes-done [] log h = ap running (sym (append-nil log))
  make_writes-done (w ∷ ws) log (h, hs) =
      rw h (make_writes-done ws (log ++ w ∷ []) hs ∙ ap running (append_assoc log (w ∷ []) ws))

  attempted-exited :
      (w : Write) (log : List Write) (a : Attempt) (f : List Write → Run)
      → a ≢ Attempt.succeeds
      → then_run f (attempted w log a) ≡ exited (log ++ left_of w a)
  attempted-exited w log Attempt.open_fails f h = ap exited (sym (append-nil log))
  attempted-exited w log Attempt.write_fails f h = ap exited (sym (append-nil log))
  attempted-exited w log Attempt.close_fails f h = refl
  attempted-exited w log Attempt.succeeds f h = absurd (h refl)

  make_writes-exited :
      (us : List Write) (w : Write) (vs log : List Write)
      → All (λ u. host u.0 u.1 ≡ Attempt.succeeds) us
      → host w.0 w.1 ≢ Attempt.succeeds
      → make_writes (us ++ w ∷ vs) log ≡ exited (log ++ us ++ left_of w (host w.0 w.1))
  unfolding make_writes
  make_writes-exited [] w vs log h k =
      attempted-exited w log (host w.0 w.1) (make_writes vs) k
      ∙ ap (λ l. exited (l ++ left_of w (host w.0 w.1))) (sym (append-nil log))
  make_writes-exited (u ∷ us) w vs log (h, hs) k = rw h (
      make_writes-exited us w vs (log ++ u ∷ []) hs k
      ∙ ap (λ l. exited (l ++ left_of w (host w.0 w.1))) (append_assoc log (u ∷ []) us))

  -- If the host takes them all, the writes are the filter expression to the filter of each event of
  -- each instance, in the order of the tables, and then a one to the flag of each, all with their
  -- NUL.
  pub set_filter_and_enable-done :
      (expr : Bytes) (log : List Write)
      → All (λ w. host w.0 w.1 ≡ Attempt.succeeds) (setup_writes expr)
      → set_filter_and_enable host (some expr) log ≡ running (log ++ setup_writes expr)
  unfolding set_filter_and_enable
  set_filter_and_enable-done expr log h =
      write_both _ _ get_instance_filter get_instance_enable log
      ∙ make_writes-done (setup_writes expr) log h

  -- At the first of the writes of a filter expression and of the flags that does not succeed,
  -- wherever it stands, the program exits: with just the writes before it made if the open or the
  -- write of its file fails, and with it made too if the close fails.
  pub set_filter_and_enable-exited :
      (expr : Bytes) (log us : List Write) (w : Write) (vs : List Write)
      → setup_writes expr ≡ us ++ w ∷ vs
      → All (λ u. host u.0 u.1 ≡ Attempt.succeeds) us
      → host w.0 w.1 ≢ Attempt.succeeds
      → set_filter_and_enable host (some expr) log ≡ exited (log ++ us ++ left_of w (host w.0 w.1))
  unfolding set_filter_and_enable
  set_filter_and_enable-exited expr log us w vs e h k =
      write_both _ _ get_instance_filter get_instance_enable log
      ∙ ap (λ ws. make_writes ws log) e
      ∙ make_writes-exited us w vs log h k

  -- If the host takes them all, the writes are the zeros, in their order.
  pub reset_events-done :
      (log : List Write)
      → All (λ w. host w.0 w.1 ≡ Attempt.succeeds) reset_writes
      → reset_events host log ≡ running (log ++ reset_writes)
  unfolding reset_events
  reset_events-done log h =
      write_both _ _ get_instance_enable get_instance_filter log
      ∙ make_writes-done reset_writes log h
