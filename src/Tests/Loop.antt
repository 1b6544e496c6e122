-- ===== src/Tests/Loop.antt =====
-- A recording of one pipe with one helper, up to its end.
use w_perf_archived.Base.{
  ℕ, ◌≡◌, ◌==◌, ltb, if◌then◌else◌, refl, true, false, none, some, [], ◌∷◌, arith, All,
}
use w_perf_archived.Recorder.Pump.{Ctx, again, ok, buffer_len, on_open, on_read, record_event}
use w_perf_archived.Recorder.Pump.Steps
use w_perf_archived.Recorder.Pump.Steps.{fill}
use w_perf_archived.Tracer.Text.{codes}
use w_perf_archived.Recorder.Workers
use w_perf_archived.Recorder.Workers.{Workers, setup_ioworkers, no_workers, going}
use w_perf_archived.Recorder.Workers.Laws.{down, iostat}
use w_perf_archived.Recorder.Expiry.{timer_expire, started}
use w_perf_archived.Recorder.Expiry.Cycle
use w_perf_archived.Recorder.Loop.{
  Loop, Leads, IsOver, PumpStep, helper_ends, here, next, fires, pumps, ends, at_run,
}
use w_perf_archived.Recorder.Loop.Ends.{Copied, Leads-IsOver}
use w_perf_archived.Tests.Recorder.{willing, reset_run}

abbrev ready_host : Workers.Host
ready_host = record { mkdir = λ f. true; open_file = λ f. some 9; spawn = λ i. 0 }

-- One disk: iostat, spawned by `setup_ioworkers` and again by `record_ioworkers`.
abbrev set_up : Workers
set_up = record {
  argv = some (iostat (codes "sda")) ∷ [];
  workers = some (record { args = some (iostat (codes "sda")); fd = 9 }) ∷ [];
  worker_count = 1;
  spawned = 0 ∷ [];
}

one_disk :
    setup_ioworkers ready_host
      (record { disk_list = some (codes "sda"); nic_list = none; output_dir = codes "/tmp" })
      no_workers
    ≡ going set_up
unfolding setup_ioworkers
one_disk = refl

abbrev spawned_twice : Workers
spawned_twice = record set_up { spawned = 0 ∷ 0 ∷ [] }

abbrev begun : Loop
begun = at_run ([] ∷ []) spawned_twice []

-- The pipe is open, and its first read waits.
abbrev ready : Ctx
unfolding record_event on_open
ready = on_open (ok 5) (record (record_event []) { pending = [] })

-- Behind the timer, the open and a read that finds nothing, and the end of one of the two processes.
abbrev over : Loop
unfolding on_read timer_expire
over = helper_ends 0 (record begun {
  recorder = timer_expire willing [] (started 1 []);
  pumps = on_read true again (fill again [] ready) ∷ [];
})

over-Leads : Leads willing begun over
unfolding record_event on_open on_read timer_expire
over-Leads =
    next
      (next
        (next (next here (fires refl (Cycle.timeout [] refl refl)))
          (pumps refl reset_run (PumpStep.first (Steps.opened [] [] (ok 5) refl))))
        (pumps refl reset_run
          (PumpStep.first (Steps.did_read [] [] buffer_len again refl (omega arith)))))
      (ends refl reset_run refl refl)

only_one : (i : ℕ) → (if 0 == i then false else ltb i 1) ≡ false
only_one i = ground arith

over-IsOver : IsOver over
unfolding on_read timer_expire record_event on_open
over-IsOver = record {
  signal = refl;
  timer = refl;
  pumps = (refl, tt);
  helpers = only_one;
  runs = refl;
}

Leads-IsOver_example :
    (over.recorder.timeouts ≡ 1)
    × (over.recorder.interrupts ≡ 0)
    × (over.recorder.killed ≡ down 1)
    × All Copied over.pumps
Leads-IsOver_example = Leads-IsOver willing ([] ∷ []) spawned_twice [] over-Leads over-IsOver
