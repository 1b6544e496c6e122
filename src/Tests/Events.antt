-- ===== src/Tests/Events.antt =====
-- The trace events, the softirq bookkeeping and the loading of the module at concrete inputs.
use mathlib.Core.List.{map}
use w_perf_archived.Base.{ℕ, ◌≡◌, refl, true, false, some, List, [], ◌∷◌, pos}
use w_perf_archived.Tracer.Text.{codes}
use w_perf_archived.Tracer.Events.{Cpu, Task, Where, Entry}
use w_perf_archived.Tracer.Softirq.{
  Happening, do_softirq, do_softirq_ret, action, action_ret, observe, spans, net_rx_action,
}
use w_perf_archived.Tracer.Softirq.Spans.{times, observe-spans}
use w_perf_archived.Tracer.Init.{
  Host, trace_wperf_events_init, trace_wperf_events_exit, unloaded, wperf_lookup,
}
use w_perf_archived.Tracer.Init.Laws.{loaded, trace_wperf_events_exit-init}

abbrev worker : Task
worker = record { comm = codes "kworker"; pid = 5; state = 0 }

abbrev server : Task
server = record { comm = codes "server"; pid = 9; state = 1 }

abbrev serving : Cpu
serving = record { softirqs_nr = 3; softirq_btime = 70 }

abbrev in_softirq : Where
in_softirq = record { in_irq = false; in_serving_softirq = true }

abbrev blank : Entry
blank = record {
  type = 0;
  tsc = 41;
  prev_comm = [];
  next_comm = [];
  prev_pid = 0;
  next_pid = 0;
  prev_state = 0;
  next_state = 0;
  in_which_ctx = pos 0;
}

abbrev history : List Happening
history =
    do_softirq 80
    ∷ action net_rx_action
    ∷ action_ret net_rx_action
    ∷ do_softirq_ret (codes "idle") 95
    ∷ []

observe-spans_example : map times (observe history serving).1 ≡ spans 70 history
observe-spans_example = observe-spans history serving

-- Directories are numbers.
abbrev host : Host ℕ
host = record {
  register_jprobes = λ ps. 0;
  register_kretprobes = λ ps. 0;
  lookup = λ name parent. some 1;
  create_dir = λ name parent. some 2;
  create_file = λ name dir. true;
}

trace_wperf_events_exit-init_example :
    (trace_wperf_events_init host unloaded ≡ some (0, loaded 1 2 2))
    × (trace_wperf_events_exit (loaded {D = ℕ} 1 2 2)
        ≡ record (loaded 1 2 2) { jprobes = []; kretprobes = []; armed = λ h. false })
unfolding wperf_lookup
trace_wperf_events_exit-init_example =
    trace_wperf_events_exit-init host 1 2 2 refl refl refl refl refl (λ f dir. refl)
