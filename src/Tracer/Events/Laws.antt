-- ===== src/Tracer/Events/Laws.antt =====
-- What a reader of the trace can tell from an entry.
use w_perf_archived.Base.{
  ℕ, zero, suc, ◌≤◌, ◌≡◌, refl, Bool, ℤ, pos, negsuc, neg, if◌then◌else◌, arith, leb, ◌==◌,
}
use w_perf_archived.Tracer.Events.{
  Cpu, Task, Where, Entry, nr_softirqs, hardirq, process, fill_switch_to, fill_try_to_wake_up,
  fill_do_exit,
}
use w_perf_archived.Tracer.Text.{Bytes}

-- Where a wake-up comes from.
pub data Source : Type 0 where
  irq : Source
  softirq : ℕ → Source
  task : Source

abbrev pub source_of : Cpu → Where → Source
source_of cpu w =
    if w.in_irq then irq else if w.in_serving_softirq then softirq cpu.softirqs_nr else task

-- A reading of the field with the constants of analyzer/src/analyzer/lib/process/process.go: the
-- numbers up to NR_SOFTIRQS are softirqs, the two after them the hard interrupt and the process, and
-- a negative number is a softirq.
abbrev pub read_source : ℤ → Source
read_source (pos n) = if leb n nr_softirqs then softirq n else if n == hardirq then irq else task
read_source (negsuc n) = softirq (suc n)

-- The context of a wake-up can be read off its entry, for every vector up to the mark NR_SOFTIRQS.
pub read_source-wakeup :
    (current p : Task) (tsc : ℕ) (cpu : Cpu) (w : Where) (old : Entry)
    → cpu.softirqs_nr ≤ nr_softirqs
    → read_source (fill_try_to_wake_up current p tsc cpu w old).in_which_ctx ≡ source_of cpu w
unfolding fill_try_to_wake_up
read_source-wakeup current p tsc cpu w old h = ground arith

switch_code :
    (n : ℕ) (hard soft : Bool)
    → n ≤ nr_softirqs
    → read_source (if hard then pos hardirq else if soft then neg n else pos process)
      ≡ (if hard then irq else if soft then softirq n else task)
switch_code zero hard soft h = ground arith
switch_code (suc n) hard soft h = ground arith

-- The context of a switch can be read off its entry, for every vector up to the mark NR_SOFTIRQS,
-- with the sign that a switch gives the vector.
pub read_source-switch :
    (prev_p next_p : Task) (tsc : ℕ) (cpu : Cpu) (w : Where) (old : Entry)
    → cpu.softirqs_nr ≤ nr_softirqs
    → read_source (fill_switch_to prev_p next_p tsc cpu w old).in_which_ctx ≡ source_of cpu w
unfolding fill_switch_to
read_source-switch prev_p next_p tsc cpu w old h =
    switch_code cpu.softirqs_nr w.in_irq w.in_serving_softirq h

-- The entry of an exit has no time of its own: whatever time the probe passes, the field keeps what
-- the buffer held, so two exits at different times give one entry.
pub fill_do_exit-tsc :
    (current : Task) (swapper : Bytes) (t u : ℕ) (old : Entry)
    → ((fill_do_exit current swapper t old).tsc ≡ old.tsc)
      × (fill_do_exit current swapper t old ≡ fill_do_exit current swapper u old)
unfolding fill_do_exit
fill_do_exit-tsc current swapper t u old = (refl, refl)
