-- ===== src/Tracer/Softirq/Spans.antt =====
-- The spans that a CPU records, against a reading of its history; and the vector that it serves.
use mathlib.Core.List.{map}
use w_perf_archived.Base.{ℕ, ◌≤◌, ◌<◌, ◌≡◌, refl, ap, List, [], ◌∷◌, ◌++◌, arith, All}
use w_perf_archived.Tracer.Events.{Cpu, nr_softirqs}
use w_perf_archived.Tracer.Softirq.{
  Action, Happening, Span, do_softirq, do_softirq_ret, action, action_ret, nr, happen, observe,
  Ordered, spans,
}

abbrev pub times : Span → ℕ × ℕ
times s = (s.begin_time, s.end_time)

-- Each span that is recorded goes from the latest call of `__do_softirq` before the return, or the
-- time that the CPU held before them all, to that return, whatever actions ran between.
pub observe-spans :
    (hs : List Happening) (cpu : Cpu) → map times (observe hs cpu).1 ≡ spans cpu.softirq_btime hs
unfolding observe spans
observe-spans [] cpu = refl
observe-spans (do_softirq now ∷ hs) cpu = observe-spans hs _
observe-spans (do_softirq_ret comm now ∷ hs) cpu =
    ap (λ l. (cpu.softirq_btime, now) ∷ l) (observe-spans hs cpu)
observe-spans (action a ∷ hs) cpu = observe-spans hs _
observe-spans (action_ret a ∷ hs) cpu = observe-spans hs _

abbrev pub IsForward : Span → Type 0
IsForward s = s.begin_time ≤ s.end_time

-- With a clock that does not go back, from a time at or after the one the CPU holds, no span ends
-- before it begins.
pub observe-IsForward :
    (hs : List Happening) (cpu : Cpu) (from : ℕ)
    → cpu.softirq_btime ≤ from
    → Ordered from hs
    → All IsForward (observe hs cpu).1
unfolding observe
observe-IsForward [] cpu from h o = tt
observe-IsForward (do_softirq now ∷ hs) cpu from h (le, o) =
    observe-IsForward hs _ now (omega arith) o
observe-IsForward (do_softirq_ret comm now ∷ hs) cpu from h (le, o) =
    (omega arith, observe-IsForward hs cpu now (omega arith) o)
observe-IsForward (action a ∷ hs) cpu from h o = observe-IsForward hs _ from h o
observe-IsForward (action_ret a ∷ hs) cpu from h o = observe-IsForward hs _ from h o

nr_lt : (a : Action) → nr a < nr_softirqs
unfolding nr
nr_lt a = ground arith

happen-le :
    (h : Happening) (cpu : Cpu)
    → cpu.softirqs_nr ≤ nr_softirqs
    → (happen h cpu).0.softirqs_nr ≤ nr_softirqs
unfolding happen
happen-le (do_softirq now) cpu h = h
happen-le (do_softirq_ret comm now) cpu h = h
happen-le (action a) cpu h = omega (arith, nr_lt a)
happen-le (action_ret a) cpu h = omega arith

-- The vector of a CPU stays in the range that the trace events tell apart, and behind the return of
-- an action it is the mark NR_SOFTIRQS.
pub observe-le :
    (hs : List Happening) (cpu : Cpu)
    → cpu.softirqs_nr ≤ nr_softirqs
    → (observe hs cpu).0.softirqs_nr ≤ nr_softirqs
unfolding observe
observe-le [] cpu h = h
observe-le (e ∷ hs) cpu h = observe-le hs (happen e cpu).0 (happen-le e cpu h)

-- While an action runs, the vector of its CPU is that of the action; behind it, the mark.
pub observe-action :
    (a : Action) (hs : List Happening) (cpu : Cpu)
    → ((observe (hs ++ action a ∷ []) cpu).0.softirqs_nr ≡ nr a)
      × ((observe (hs ++ action a ∷ action_ret a ∷ []) cpu).0.softirqs_nr ≡ nr_softirqs)
unfolding observe
observe-action a [] cpu = unfold nr in (refl, refl)
observe-action a (h ∷ hs) cpu = observe-action a hs (happen h cpu).0
