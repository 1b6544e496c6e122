-- ===== src/Tracer/Init.antt =====
-- Loading and unloading of the module: `trace_wperf_events_init`, `trace_wperf_events_exit` and the
-- files that they make, of module/trace_wperf_events.c.
-- The state is what the module has asked of the kernel. `none` is a `BUG_ON`.
pub mod Laws
use w_perf_archived.Tracer.Softirq.{
  Action, tasklet_hi_action, run_timer_softirq, net_tx_action, net_rx_action, blk_done_softirq,
  irq_poll_softirq, tasklet_action, run_rebalance_domains, rcu_process_callbacks,
}
use Prim.Native.String.{String}
use w_perf_archived.Base.{
  ℕ, ◌==◌, Bool, true, false, Option, none, some, List, [], ◌∷◌, ◌++◌, if◌then◌else◌,
}

-- The functions of the kernel that the jprobes stand on, `DECL_CMN_JRP`.
pub data Jprobe : Type 0 where
  __switch_to try_to_wake_up part_round_stats futex_wait_queue_me do_futex : Jprobe
  journal_end_buffer_io_sync wake_up_new_task do_exit tcp_sendmsg udp_sendmsg : Jprobe
  tcp_sendpage udp_sendpage sock_sendmsg __lock_sock : Jprobe

-- And the kretprobes, `DECL_SOFTIRQ_KRP` and `DECL_CMN_KRP`.
pub data Kretprobe : Type 0 where
  softirq : Action → Kretprobe
  __do_softirq : Kretprobe

abbrev pub wperf_jps : List Jprobe
wperf_jps =
    __switch_to ∷ try_to_wake_up ∷ part_round_stats ∷ futex_wait_queue_me ∷ do_futex
    ∷ journal_end_buffer_io_sync ∷ wake_up_new_task ∷ do_exit ∷ tcp_sendmsg ∷ udp_sendmsg
    ∷ tcp_sendpage ∷ udp_sendpage ∷ sock_sendmsg ∷ __lock_sock ∷ []

abbrev pub wperf_krps : List Kretprobe
wperf_krps =
    softirq tasklet_hi_action
    ∷ softirq run_timer_softirq
    ∷ softirq net_tx_action
    ∷ softirq net_rx_action
    ∷ softirq blk_done_softirq
    ∷ softirq irq_poll_softirq
    ∷ softirq tasklet_action
    ∷ softirq run_rebalance_domains
    ∷ softirq rcu_process_callbacks
    ∷ __do_softirq
    ∷ []

-- The probes that `disable_tx_stat_probes` switches off.
abbrev pub tx_jps : List Jprobe
tx_jps = tcp_sendmsg ∷ udp_sendmsg ∷ tcp_sendpage ∷ udp_sendpage ∷ sock_sendmsg ∷ []

-- The place of a jprobe in its declaration, and so whether two are the same.
abbrev number : Jprobe → ℕ
number __switch_to = 0
number try_to_wake_up = 1
number part_round_stats = 2
number futex_wait_queue_me = 3
number do_futex = 4
number journal_end_buffer_io_sync = 5
number wake_up_new_task = 6
number do_exit = 7
number tcp_sendmsg = 8
number udp_sendmsg = 9
number tcp_sendpage = 10
number udp_sendpage = 11
number sock_sendmsg = 12
number __lock_sock = 13

-- The probes of a table are switched on or off.
unfoldable pub switch_all : Bool → List Jprobe → (Jprobe → Bool) → Jprobe → Bool
switch_all b [] on k = on k
switch_all b (h ∷ hs) on k =
    let rest = switch_all b hs on k in if number h == number k then b else rest

-- `armed` tells which jprobes are on.
pub record Loaded (D : Type 0) : Type 0 where
  pub jprobes : List Jprobe
  pub kretprobes : List Kretprobe
  pub armed : Jprobe → Bool
  pub root : Option D
  pub made : List (D × String)  -- the files, each with its directory

-- What init asks of the kernel: the results of the registrations (0, or an error, which leaves none
-- of the table registered), the directory that a lookup finds, and the directory and the file that
-- debugfs makes, if it does.
pub record Host (D : Type 0) : Type 0 where
  pub register_jprobes : List Jprobe → ℕ
  pub register_kretprobes : List Kretprobe → ℕ
  pub lookup : String → Option D → Option D
  pub create_dir : String → D → Option D
  pub create_file : String → D → Bool

-- `struct event`: its name, and the names of its files up to the NULL.
pub record Event : Type 0 where
  pub name : String
  pub files : List String

abbrev pub ev_dutils : Event
ev_dutils = record { name = "disk_utils"; files = "enable" ∷ "filter" ∷ "output" ∷ [] }

abbrev pub ev_tx_stats : Event
ev_tx_stats = record { name = "tx_stat"; files = "enable" ∷ "filter" ∷ "output" ∷ [] }

module _ {D : Type 0} where
  abbrev pub return_0 : Option (Loaded D) → Option (ℕ × Loaded D)
  return_0 none = none
  return_0 (some st) = some (0, st)

module _ {D : Type 0} (H : Host D) where
  -- The `while` loop over the files of an event.
  unfoldable pub create_event_files : D → List String → Loaded D → Option (Loaded D)
  create_event_files dir [] st = some st
  create_event_files dir (f ∷ fs) st =
      let next = create_event_files dir fs (record st { made = st.made ++ (dir, f) ∷ [] }) in
      if H.create_file f dir then next else none

  abbrev pub in_dir : Option D → List String → Loaded D → Option (Loaded D)
  in_dir none fs st = none
  in_dir (some dir) fs st = create_event_files dir fs st

  unfoldable pub create_event_dir : D → Event → Loaded D → Option (Loaded D)
  unfolding create_event_files
  create_event_dir parent ev st = in_dir (H.create_dir ev.name parent) ev.files st

  abbrev pub dirs : List String
  dirs = "tracing" ∷ "events" ∷ "wperf" ∷ []

  -- The loop of `wperf_lookup`; a NULL parent is passed on.
  unfoldable pub wperf_lookup_from : List String → Option D → Option D
  wperf_lookup_from [] parent = parent
  wperf_lookup_from (d ∷ ds) parent = wperf_lookup_from ds (H.lookup d parent)

  unfoldable pub wperf_lookup : Option D
  unfolding wperf_lookup_from
  wperf_lookup = wperf_lookup_from dirs none

  abbrev pub second_dir : D → Option (Loaded D) → Option (ℕ × Loaded D)
  second_dir root none = none
  second_dir root (some st) = return_0 (create_event_dir root ev_tx_stats st)

  abbrev pub make_files : Option D → Loaded D → Option (ℕ × Loaded D)
  make_files none st = none
  make_files (some root) st =
      second_dir root (create_event_dir root ev_dutils (record st { root = some root }))

  -- A registered probe is on until it is switched off.
  unfoldable pub trace_wperf_events_init : Loaded D → Option (ℕ × Loaded D)
  unfolding create_event_dir wperf_lookup switch_all
  trace_wperf_events_init st =
      if H.register_jprobes wperf_jps == 0
      then (let st = record st {
        jprobes = wperf_jps;
        armed = switch_all true wperf_jps st.armed;
      } in
          if H.register_kretprobes wperf_krps == 0
          then (let st = record st { kretprobes = wperf_krps } in
              let st = record st { armed = switch_all false (part_round_stats ∷ []) st.armed } in
              make_files wperf_lookup (record st { armed = switch_all false tx_jps st.armed }))
          else some (H.register_kretprobes wperf_krps, st))
      else some (H.register_jprobes wperf_jps, st)

module _ {D : Type 0} where
  -- The tables are what was registered; a probe that is not registered is off.
  unfoldable pub trace_wperf_events_exit : Loaded D → Loaded D
  unfolding switch_all
  trace_wperf_events_exit st =
      let st = record st { jprobes = []; armed = switch_all false wperf_jps st.armed } in
      record st { kretprobes = [] }

  abbrev pub unloaded : Loaded D
  unloaded = record { jprobes = []; kretprobes = []; armed = λ h. false; root = none; made = [] }
