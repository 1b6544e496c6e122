-- ===== src/Tracer/Softirq.antt =====
-- The per-CPU bookkeeping of softirqs in module/trace_wperf_events.c: which vector a CPU serves, and
-- when `__do_softirq` began, with the event `__do_softirq_ret`.
pub mod Spans
use w_perf_archived.Base.{
  ℕ, zero, suc, ◌≤◌, ◌<◌, ◌≡◌, refl, List, [], ◌∷◌, ◌++◌, arith, All, Option, none, some,
}
use w_perf_archived.Tracer.Text.{Bytes}
use w_perf_archived.Tracer.Events.{Cpu, nr_softirqs}

-- The functions that `DECL_SOFTIRQ_KRP` probes.
pub data Action : Type 0 where
  tasklet_hi_action run_timer_softirq net_tx_action net_rx_action blk_done_softirq : Action
  irq_poll_softirq tasklet_action run_rebalance_domains rcu_process_callbacks : Action

-- Its priority level.
unfoldable pub nr : Action → ℕ
nr tasklet_hi_action = 0
nr run_timer_softirq = 1
nr net_tx_action = 2
nr net_rx_action = 3
nr blk_done_softirq = 4
nr irq_poll_softirq = 5
nr tasklet_action = 6
nr run_rebalance_domains = 7
nr rcu_process_callbacks = 9

-- The entry and the return handler of such a probe.
unfoldable pub on_action_ent : Action → Cpu → Cpu
unfolding nr
on_action_ent a cpu = record cpu { softirqs_nr = nr a }

unfoldable pub on_action_ret : Action → Cpu → Cpu
on_action_ret a cpu = record cpu { softirqs_nr = nr_softirqs }

unfoldable pub on___do_softirq_ent : ℕ → Cpu → Cpu
on___do_softirq_ent now cpu = record cpu { softirq_btime = now }

-- The entry of `__do_softirq_ret`.
pub record Span : Type 0 where
  pub prev_comm : Bytes
  pub begin_time : ℕ
  pub end_time : ℕ

unfoldable pub on___do_softirq_ret : Bytes → ℕ → Cpu → Span
on___do_softirq_ret comm now cpu = record {
  prev_comm = comm;
  begin_time = cpu.softirq_btime;
  end_time = now;
}

-- What happens on one CPU, in order: calls of `__do_softirq` at their times, and of the actions.
pub data Happening : Type 0 where
  do_softirq : ℕ → Happening
  do_softirq_ret : Bytes → ℕ → Happening
  action : Action → Happening
  action_ret : Action → Happening

unfoldable pub happen : Happening → Cpu → Cpu × List Span
unfolding on___do_softirq_ent on___do_softirq_ret on_action_ent on_action_ret
happen (do_softirq now) cpu = (on___do_softirq_ent now cpu, [])
happen (do_softirq_ret comm now) cpu = (cpu, on___do_softirq_ret comm now cpu ∷ [])
happen (action a) cpu = (on_action_ent a cpu, [])
happen (action_ret a) cpu = (on_action_ret a cpu, [])

-- The CPU's data at the end, and the spans that were recorded.
unfoldable pub observe : List Happening → Cpu → Cpu × List Span
unfolding happen
observe [] cpu = (cpu, [])
observe (h ∷ hs) cpu =
    let (cpu', new) = happen h cpu in let (last, more) = observe hs cpu' in (last, new ++ more)

-- Times do not go back: each is at least `from`, and at least the ones before it.
abbrev pub Ordered : ℕ → List Happening → Type 0
Ordered from [] = Unit
Ordered from (do_softirq now ∷ hs) = (from ≤ now) × Ordered now hs
Ordered from (do_softirq_ret comm now ∷ hs) = (from ≤ now) × Ordered now hs
Ordered from (action a ∷ hs) = Ordered from hs
Ordered from (action_ret a ∷ hs) = Ordered from hs

-- A reading of the history by itself: each return with the latest call before it.
unfoldable pub spans : ℕ → List Happening → List (ℕ × ℕ)
spans start [] = []
spans start (do_softirq now ∷ hs) = spans now hs
spans start (do_softirq_ret comm now ∷ hs) = (start, now) ∷ spans start hs
spans start (action a ∷ hs) = spans start hs
spans start (action_ret a ∷ hs) = spans start hs
