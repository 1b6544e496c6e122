-- ===== src/Tracer/Events.antt =====
-- The trace events of module/trace_wperf_events.h: what each `TP_fast_assign` writes into its entry
-- of the ring buffer, and the probes of module/trace_wperf_events.c that fire them. An entry is
-- filled over what the buffer held.
pub mod Laws
use w_perf_archived.Base.{ℕ, Bool, ℤ, pos, neg, if◌then◌else◌, ltb, List, [], ◌++◌, ◌∷◌, take}
use w_perf_archived.Tracer.Text.{Bytes, codes}

-- The events' types.
abbrev pub wait : ℕ
wait = 0

abbrev pub wakeup : ℕ
wakeup = 1

abbrev pub create : ℕ
create = 2

abbrev pub exit : ℕ
exit = 3

abbrev pub nr_softirqs : ℕ
nr_softirqs = 10

abbrev pub hardirq : ℕ
hardirq = 11

abbrev pub process : ℕ
process = 12

abbrev pub task_comm_len : ℕ
task_comm_len = 16

-- `struct per_cpu_wperf_data`.
pub record Cpu : Type 0 where
  pub softirqs_nr : ℕ
  pub softirq_btime : ℕ

-- What an event reads of `struct task_struct`; `comm` has `TASK_COMM_LEN` bytes.
pub record Task : Type 0 where
  pub comm : Bytes
  pub pid : ℕ
  pub state : ℕ

-- `in_irq()` and `in_serving_softirq()`.
pub record Where : Type 0 where
  pub in_irq : Bool
  pub in_serving_softirq : Bool

-- The entry of the four scheduling events.
pub record Entry : Type 0 where
  pub type : ℕ
  pub tsc : ℕ
  pub prev_comm : Bytes
  pub next_comm : Bytes
  pub prev_pid : ℕ
  pub next_pid : ℕ
  pub prev_state : ℕ
  pub next_state : ℕ
  pub in_which_ctx : ℤ

-- `__switch_to`.
unfoldable pub fill_switch_to : Task → Task → ℕ → Cpu → Where → Entry → Entry
fill_switch_to prev_p next_p tsc cpu w old = record old {
  type = wait;
  tsc = tsc;
  prev_comm = take task_comm_len prev_p.comm;
  next_comm = take task_comm_len next_p.comm;
  prev_pid = prev_p.pid;
  next_pid = next_p.pid;
  prev_state = prev_p.state;
  next_state = next_p.state;
  in_which_ctx =
      if w.in_irq
      then pos hardirq
      else if w.in_serving_softirq
      then neg cpu.softirqs_nr
      else pos process;
}

-- `try_to_wake_up`.
unfoldable pub fill_try_to_wake_up : Task → Task → ℕ → Cpu → Where → Entry → Entry
fill_try_to_wake_up current p tsc cpu w old = record old {
  type = wakeup;
  tsc = tsc;
  prev_comm = take task_comm_len current.comm;
  next_comm = take task_comm_len p.comm;
  prev_pid = current.pid;
  next_pid = p.pid;
  prev_state = current.state;
  next_state = p.state;
  in_which_ctx =
      if w.in_irq
      then pos hardirq
      else if w.in_serving_softirq
      then pos cpu.softirqs_nr
      else pos process;
}

-- `wake_up_new_task`.
unfoldable pub fill_wake_up_new_task : Task → Task → ℕ → Entry → Entry
fill_wake_up_new_task current p tsc old = record old {
  type = create;
  tsc = tsc;
  prev_comm = take task_comm_len current.comm;
  next_comm = take task_comm_len p.comm;
  prev_pid = current.pid;
  next_pid = p.pid;
  prev_state = current.state;
  next_state = p.state;
  in_which_ctx = pos process;
}

-- `do_exit`. The source copies `TASK_COMM_LEN` bytes from the literal "swapper", which has eight:
-- `swapper` is what those bytes are.
unfoldable pub fill_do_exit : Task → Bytes → ℕ → Entry → Entry
fill_do_exit current swapper tsc old = record old {
  type = exit;
  prev_comm = take task_comm_len current.comm;
  next_comm = swapper;
  prev_pid = current.pid;
  next_pid = 0;
  prev_state = current.state;
  next_state = 0;
  in_which_ctx = pos process;
}

-- The probes that fire these events, where `tsc` is what `rdtsc_ordered` gives.
unfoldable pub on___switch_to_ent : Task → Task → ℕ → Cpu → Where → Entry → Entry
unfolding fill_switch_to
on___switch_to_ent prev_p next_p tsc cpu w old = fill_switch_to prev_p next_p tsc cpu w old

unfoldable pub on_try_to_wake_up_ent : Task → Task → ℕ → Cpu → Where → Entry → Entry
unfolding fill_try_to_wake_up
on_try_to_wake_up_ent current p tsc cpu w old = fill_try_to_wake_up current p tsc cpu w old

unfoldable pub on_wake_up_new_task_ent : Task → Task → ℕ → Entry → Entry
unfolding fill_wake_up_new_task
on_wake_up_new_task_ent current p tsc old = fill_wake_up_new_task current p tsc old

unfoldable pub on_do_exit_ent : Task → Bytes → ℕ → Entry → Entry
unfolding fill_do_exit
on_do_exit_ent current swapper tsc old = fill_do_exit current swapper tsc old

-- The event class `common_event`, of `futex_wait_queue_me`, `do_futex` and `__lock_sock`.
pub record Common : Type 0 where
  pub type : ℕ
  pub tsc : ℕ

unfoldable pub fill_common_event : ℕ → ℕ → Common → Common
fill_common_event type tsc old = record old { type = type; tsc = tsc }

unfoldable pub on_futex_wait_queue_me_ent : ℕ → Common → Common
unfolding fill_common_event
on_futex_wait_queue_me_ent tsc = fill_common_event 1 tsc

unfoldable pub on_do_futex_ent : ℕ → Common → Common
unfolding fill_common_event
on_do_futex_ent tsc = fill_common_event 1 tsc

unfoldable pub on___lock_sock_ent : ℕ → Common → Common
unfolding fill_common_event
on___lock_sock_ent tsc = fill_common_event 3 tsc

-- `journal_end_buffer_io_sync`: the flag that the event records.
unfoldable pub on_journal_end_buffer_io_sync_ent : ℕ → Bool → Bool
on_journal_end_buffer_io_sync_ent serving old = ltb 0 serving
