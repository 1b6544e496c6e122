-- ===== src/Tests/Recorder.antt =====
-- The recorder on a host where everything works, and where a close fails.
use w_perf_archived.Base.{Option, ◌++◌, ℕ, ◌≡◌, refl, true, none, some, List, [], ◌∷◌, All}
use w_perf_archived.Tracer.Text.{Bytes, codes}
use w_perf_archived.Recorder.Paths.{get_instance_filter}
use w_perf_archived.Recorder.Debugfs
use w_perf_archived.Recorder.Debugfs.{
  Attempt, with_nul, Write, running, exited, set_filter_and_enable, reset_events, basedir,
  instances,
}
use w_perf_archived.Recorder.Debugfs.Laws.{
  setup_writes, reset_writes, set_filter_and_enable-exited, reset_events-done,
}
use w_perf_archived.Recorder.Workers
use w_perf_archived.Recorder.Workers.{setup_ioworkers, record_ioworkers, no_workers, going}
use w_perf_archived.Recorder.Workers.Laws.{IsReady, expected, setup_ioworkers-expected}
use w_perf_archived.Recorder.Run.{Hosts, recorder_run}
use w_perf_archived.Recorder.Run.Laws.{bufsize_writes, pipes_of}
use w_perf_archived.Recorder.Options.{Opt, init_config}
use w_perf_archived.Recorder.Options.Laws.{all_good, last, pick_filter}
use w_perf_archived.Recorder.Program.{main, status, settings_of}
use w_perf_archived.Recorder.Program.Laws.{chosen, Served, main-looping, main-exits}
use w_perf_archived.Recorder.Expiry.{Recorder, started, sig_cleanup}
use w_perf_archived.Recorder.Expiry.Cycle.{Reach, here, next, interrupt, Cycle, Reach-Cycle}

abbrev pub willing : Debugfs.Host
willing f b = Attempt.succeeds

willing-All : (ws : List Write) → All (λ w. willing w.0 w.1 ≡ Attempt.succeeds) ws
willing-All [] = tt
willing-All (w ∷ ws) = (refl, willing-All ws)

abbrev expr : Bytes
expr = codes "common_pid == 7"

-- The first close fails, behind the write.
abbrev unclosed : Debugfs.Host
unclosed f b = Attempt.close_fails

set_filter_and_enable-exited_example :
    set_filter_and_enable unclosed (some expr) []
    ≡ exited
        ((get_instance_filter basedir (codes "switch") (codes "__switch_to"), with_nul expr) ∷ [])
set_filter_and_enable-exited_example =
    set_filter_and_enable-exited unclosed expr [] [] _ _ refl tt (λ e. cc)

abbrev base : Bytes
base = codes "/d"

abbrev fd : Bytes → ℕ
fd f = 9

abbrev ready : Workers.Host
ready = record { mkdir = λ f. true; open_file = λ f. some 9; spawn = λ i. 0 }

ready-IsReady : IsReady ready fd
ready-IsReady = record { mkdir = λ f. refl; open_file = λ f. refl; spawn = λ i. refl }

setup_ioworkers-expected_example :
    setup_ioworkers ready
      (record {
        disk_list = some (codes "sda");
        nic_list = some (codes "eth0");
        output_dir = codes "/tmp";
      })
      no_workers
    ≡ expected ready fd ready-IsReady (codes "/tmp") (some (codes "sda")) (some (codes "eth0"))
setup_ioworkers-expected_example =
    setup_ioworkers-expected ready fd ready-IsReady (codes "/tmp") (some (codes "sda"))
      (some (codes "eth0"))

pub reset_run : reset_events willing [] ≡ running (reset_writes willing)
reset_run = reset_events-done willing [] (willing-All (reset_writes willing))

-- Two interrupts.
abbrev interrupted : Recorder
interrupted = sig_cleanup willing (reset_writes willing) (sig_cleanup willing [] (started 1 []))

interrupted-Reach : Reach willing (started 1 []) interrupted
unfolding sig_cleanup
interrupted-Reach =
    next (next here (interrupt [] refl refl)) (interrupt (reset_writes willing) refl reset_run)

Reach-Cycle_example : Cycle 1 interrupted
Reach-Cycle_example = Reach-Cycle 1 [] interrupted-Reach

abbrev hosts : Hosts
hosts = record { files = willing; io = ready; memory = true }

-- A command line with a filter expression and a disk.
abbrev line : List Opt
line = Opt.disks (codes "sda") ∷ Opt.filter expr ∷ []

abbrev no_number : Bytes → Option ℕ
no_number s = none

-- A loop that ends with all handles closed.
abbrev ends_well : List (Bytes × Bytes) → Recorder → ℕ
ends_well ps r = 0

abbrev default_dir : Bytes
default_dir = codes "/tmp/wperf"

main-looping_example :
    main hosts ends_well no_number line
    ≡ status (
        ends_well
          (pipes_of default_dir instances)
          (started 1 (bufsize_writes (codes "4096") instances ++ setup_writes willing expr)))
unfolding init_config
main-looping_example =
    main-looping hosts ends_well no_number line fd ready-IsReady expr _ refl refl refl refl
      (willing-All (bufsize_writes (codes "4096") instances))
      (willing-All (setup_writes willing expr))

main-exits_example :
    (all_good no_number line ≡ true)
    × Served hosts ends_well no_number line
        (recorder_run hosts (settings_of (chosen no_number line)))
    × ((x : Bytes) × (last (pick_filter no_number) line none ≡ some x))
main-exits_example = main-exits hosts ends_well no_number line main-looping_example
