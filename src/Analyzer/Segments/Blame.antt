-- ===== src/Analyzer/Segments/Blame.antt =====
-- Whom a wait is laid to: from the wake-up that module/trace_wperf_events.h records to the segment that
-- the analyzer makes of it.
use w_perf_archived.Base.{
  ℕ, ℤ, pos, negsuc, neg, negate, ◌==ℤ◌, ◌≤◌, ◌≡◌, refl, ap, Bool, true, false, [], ◌∷◌,
  if◌then◌else◌, arith, ==_refl,
}
use w_perf_archived.Tracer.Events.{Cpu, Task, Where, Entry, nr_softirqs, on_try_to_wake_up_ent}
use w_perf_archived.Analyzer.Treemap.{Treemap}
use w_perf_archived.Analyzer.Soft.{Soft, SoftMap}
use w_perf_archived.Analyzer.States.{Switch, PrevState, blocked, process, update_to_runnable}
use w_perf_archived.Analyzer.Segments.{segment, switch_step}

-- What the text of an entry, printed, collected and read again, carries over.
pub record IsCopy (read : Entry → Switch) : Type 0 where
  pub type : (e : Entry) → (read e).type ≡ pos e.type
  pub time : (e : Entry) → (read e).time ≡ e.tsc
  pub prev_pid : (e : Entry) → (read e).prev_pid ≡ pos e.prev_pid
  pub next_pid : (e : Entry) → (read e).next_pid ≡ pos e.next_pid
  pub prev_state : (e : Entry) → (read e).prev_state ≡ e.prev_state
  pub in_which_ctx : (e : Entry) → (read e).in_which_ctx ≡ e.in_which_ctx

-- The process that called for the wake-up, or the interrupt, as a number below 0, or 0 for the first
-- softirq.
abbrev pub blamed : Task → Cpu → Where → ℤ
blamed current cpu w =
    if w.in_irq
    then negsuc 10
    else if w.in_serving_softirq
    then neg cpu.softirqs_nr
    else pos current.pid

abbrev context : ℕ → Bool → Bool → ℤ
context n hard soft = if hard then pos 11 else if soft then pos n else pos 12

blamed-context :
    (n : ℕ) (hard soft : Bool) (pid : ℤ)
    → n ≤ nr_softirqs
    → (if context n hard soft ==ℤ process then pid else negate (context n hard soft))
      ≡ (if hard then negsuc 10 else if soft then neg n else pid)
blamed-context n true soft pid h = refl
blamed-context n false true pid h = ground arith
blamed-context n false false pid h = refl

-- If what lies between carries over the type, the time, the pids and the context of an entry: an
-- entry that the module records of the wake-up of a blocked process, with a vector up to the mark
-- NR_SOFTIRQS, makes the analyzer end the wait at its time, and lay it to the process that ran, to
-- -11 in a hard interrupt, and to the vector with its sign changed in a softirq.
pub switch_step-blamed :
    (N : Treemap Soft) (softs : SoftMap N) (read : Entry → Switch)
    → (current p : Task) (tsc : ℕ) (cpu : Cpu) (w : Where) (old : Entry) (ps : PrevState)
    → IsCopy read
    → cpu.softirqs_nr ≤ nr_softirqs
    → ps.state ≡ blocked
    → switch_step N softs (pos p.pid) (read (on_try_to_wake_up_ent current p tsc cpu w old)) ps ≡ (
      update_to_runnable tsc ps,
      segment (pos p.pid) blocked ps.timestamp tsc (blamed current cpu w) ∷ [],
    )
unfolding switch_step on_try_to_wake_up_ent update_to_runnable
switch_step-blamed N softs read current p tsc cpu w old ps copy h b =
    let e = on_try_to_wake_up_ent current p tsc cpu w old in
    rw
      (
        copy.type e,
        copy.next_pid e,
        ==_refl p.pid,
        b,
        copy.time e,
        copy.in_which_ctx e,
        copy.prev_pid e,
      )
      (ap (λ i. (update_to_runnable tsc ps, segment (pos p.pid) blocked ps.timestamp tsc i ∷ []))
        (blamed-context cpu.softirqs_nr w.in_irq w.in_serving_softirq (pos current.pid) h))
