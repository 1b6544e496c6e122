-- ===== src/Tests/Blame.antt =====
-- A wait that a softirq ends, from the module to the analyzer.
use w_perf_archived.Base.{ℕ, ℤ, pos, ◌≡◌, refl, true, false, [], ◌∷◌, All, arith}
use w_perf_archived.Tracer.Events.{Entry, Task, Cpu, Where}
use w_perf_archived.Tracer.Text.{codes}
use w_perf_archived.Analyzer.Soft.{Soft, no_softs, get_ceiling_soft, init_soft_container}
use w_perf_archived.Analyzer.States.{Switch, blocked, get_comm, init_comm_map, last_time}
use w_perf_archived.Analyzer.Cascade.{WaitForGraph, returns}
use w_perf_archived.Analyzer.Cascade.Edges.{weight_of}
use w_perf_archived.Analyzer.Main.{analyze}
use w_perf_archived.Analyzer.Main.History.{analyze-waits}
use w_perf_archived.Analyzer.Main.Whole.{IsCalm}
use w_perf_archived.Analyzer.Segments.{segment, switch_step, break_events, put_all}
use w_perf_archived.Analyzer.Segments.Blame.{IsCopy}
use w_perf_archived.Analyzer.Segments.Broken.{unseen}
use w_perf_archived.Analyzer.Segments.Waits.{
  History, switched, woken, record_of, trace, waits, blocked_only,
}
use w_perf_archived.Analyzer.Segments.Waits.Made.{made}
use w_perf_archived.Analyzer.Segments.Waits.Follow.{break_events-waits}
use w_perf_archived.Tests.Analyzer.{soft_map, seg_map}

-- The fields of an entry, carried over.
abbrev read_entry : Entry → Switch
read_entry e = record {
  cpu = pos 0;
  time = e.tsc;
  type = pos e.type;
  prev_pid = pos e.prev_pid;
  next_pid = pos e.next_pid;
  prev_state = e.prev_state;
  next_state = e.next_state;
  prev_comm = e.prev_comm;
  next_comm = e.next_comm;
  in_which_ctx = e.in_which_ctx;
}

read_entry-IsCopy : IsCopy read_entry
read_entry-IsCopy = record {
  type = λ e. refl;
  time = λ e. refl;
  prev_pid = λ e. refl;
  next_pid = λ e. refl;
  prev_state = λ e. refl;
  in_which_ctx = λ e. refl;
}

abbrev task : ℕ → Task
task pid = record { comm = b'a' ∷ []; pid = pid; state = 0 }

abbrev other_task : Task
other_task = record { comm = b'b' ∷ []; pid = 2; state = 0 }

abbrev in_net_rx : Cpu
in_net_rx = record { softirqs_nr = 3; softirq_btime = 5 }

abbrev in_softirq : Where
in_softirq = record { in_irq = false; in_serving_softirq = true }

abbrev no_entry : Entry
no_entry = record {
  type = 0;
  tsc = 0;
  prev_comm = [];
  next_comm = [];
  prev_pid = 0;
  next_pid = 0;
  prev_state = 0;
  next_state = 0;
  in_which_ctx = pos 0;
}

-- Process 1 sleeps at 10, is woken by process 2 from a softirq at 20, and runs again at 25.
abbrev sleeping : Task
sleeping = record { comm = b'a' ∷ []; pid = 1; state = 1 }

abbrev in_process : Where
in_process = record { in_irq = false; in_serving_softirq = false }

abbrev history : History
history =
    (switched sleeping (task 2) 10 in_net_rx in_process, no_entry)
    ∷ (woken (task 2) sleeping 20 in_net_rx in_softirq, no_entry)
    ∷ (switched (task 2) (task 1) 25 in_net_rx in_process, no_entry)
    ∷ []

one_wait : waits 1 history ≡ segment (pos 1) blocked 10 20 (ℤ.negsuc 2) ∷ []
one_wait = refl

break_events-waits_example :
    let ss = made soft_map (no_softs soft_map) (pos 1) (trace read_entry history) (unseen 25) in
    ((break_events soft_map
        (no_softs soft_map)
        (pos 1)
        seg_map
        (trace read_entry history)
        (unseen 25)
        []).1
      ≡ put_all soft_map (no_softs soft_map) (pos 1) seg_map ss [])
    × (blocked_only ss ≡ waits 1 history)
break_events-waits_example =
    break_events-waits soft_map (no_softs soft_map) read_entry read_entry-IsCopy 1 seg_map history
      25 [] (tt, (omega arith, (tt, tt)))

-- Process 1 waits for process 2 from 10 to 20, with a softirq between.
abbrev soft : Soft
soft = record { cpu = pos 0; stime = 12; etime = 15 }

abbrev first_switch_of : Switch
first_switch_of =
    read_entry (record_of (switched sleeping other_task 10 in_net_rx in_process) no_entry)

abbrev woken_by_other : History
woken_by_other =
    (woken other_task sleeping 20 in_net_rx in_process, no_entry)
    ∷ (switched other_task (task 1) 25 in_net_rx in_process, no_entry)
    ∷ []

abbrev both_waits : History
both_waits = (switched sleeping other_task 10 in_net_rx in_process, no_entry) ∷ woken_by_other

both_waits-IsCalm :
    All
      (IsCalm seg_map soft_map first_switch_of (trace read_entry woken_by_other) (soft ∷ []))
      (pos 1 ∷ pos 2 ∷ [])
unfolding record_of last_time switch_step get_ceiling_soft init_soft_container
both_waits-IsCalm = (
  (refl, ((λ e. absurd (cc e)), ((λ e. absurd (cc e)), tt))),
  ((refl, ((λ e. absurd (cc e)), ((λ e. (omega arith, omega arith)), tt))), tt),
)

analyze-waits_example :
    (g : WaitForGraph) × (analyze seg_map soft_map 1 20
        (pos 1 ∷ pos 2 ∷ [])
        (trace read_entry both_waits)
        (soft ∷ [])
      ≡ returns g)
    × (weight_of g (codes "a,b,") ≡ 10)
unfolding record_of init_comm_map last_time switch_step get_ceiling_soft init_soft_container
    get_comm
analyze-waits_example =
    analyze-waits seg_map soft_map read_entry read_entry-IsCopy both_waits
      (tt, (omega arith, (tt, tt))) first_switch_of (trace read_entry woken_by_other) refl 0 20
      (1 ∷ 2 ∷ []) (soft ∷ []) (codes "a,b,") (omega arith) (refl, (refl, tt)) both_waits-IsCalm
      (omega arith, (omega arith, tt)) (omega arith)
