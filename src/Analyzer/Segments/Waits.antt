-- ===== src/Analyzer/Segments/Waits.antt =====
-- The waits of a process in what the scheduler did, and the segments that the analyzer makes of the trace
-- that the module records of it: from the probes of module/trace_wperf_events.c to `BreakIntoSegments` of
-- analyzer/src/analyzer/lib/process/process.go.
pub mod Made
pub mod Follow
use w_perf_archived.Base.{
  ℕ, ℤ, pos, ◌==ℤ◌, ◌==◌, ◌≤◌, not, ◌&&◌, ◌||◌, Option, none, some, List, [], ◌∷◌, ◌++◌,
  if◌then◌else◌,
}
use w_perf_archived.Tracer.Text.{Bytes}
use w_perf_archived.Tracer.Events.{
  Cpu, Task, Where, Entry, nr_softirqs, on___switch_to_ent, on_try_to_wake_up_ent,
  on_wake_up_new_task_ent, on_do_exit_ent,
}
use w_perf_archived.Analyzer.States.{Switch, blocked}
use w_perf_archived.Analyzer.Segments.{Segment, segment}
use w_perf_archived.Analyzer.Segments.Blame.{blamed}

-- What the scheduler does, as the probes see it.
pub data Happening : Type 0 where
  switched : (prev next : Task) (tsc : ℕ) (cpu : Cpu) (w : Where) → Happening
  woken : (current p : Task) (tsc : ℕ) (cpu : Cpu) (w : Where) → Happening
  created : (current p : Task) (tsc : ℕ) → Happening
  exited : (current : Task) (swapper : Bytes) (tsc : ℕ) → Happening

-- What the module records of it, over what the buffer held.
unfoldable pub record_of : Happening → Entry → Entry
unfolding on___switch_to_ent on_try_to_wake_up_ent on_wake_up_new_task_ent on_do_exit_ent
record_of (switched prev next tsc cpu w) = on___switch_to_ent prev next tsc cpu w
record_of (woken current p tsc cpu w) = on_try_to_wake_up_ent current p tsc cpu w
record_of (created current p tsc) = on_wake_up_new_task_ent current p tsc
record_of (exited current swapper tsc) = on_do_exit_ent current swapper tsc

-- A history, each item with what the buffer held.
abbrev pub History : Type 0
History = List (Happening × Entry)

abbrev pub trace : (Entry → Switch) → History → List Switch
trace read [] = []
trace read ((h, old) ∷ hs) = read (record_of h old) ∷ trace read hs

-- The wake-up that ends a wait, with its time and whom it is laid to; `none` if the process is
-- switched first, or never woken.
abbrev pub wake_of : ℕ → History → Option (ℕ × ℤ)
wake_of pid [] = none
wake_of pid ((switched prev next tsc cpu w, old) ∷ hs) =
    if prev.pid == pid || next.pid == pid then none else wake_of pid hs
wake_of pid ((woken current p tsc cpu w, old) ∷ hs) =
    if p.pid == pid then some (tsc, blamed current cpu w) else wake_of pid hs
wake_of pid ((created current p tsc, old) ∷ hs) = wake_of pid hs
wake_of pid ((exited current swapper tsc, old) ∷ hs) = wake_of pid hs

abbrev pub wait_from : ℕ → ℕ → Option (ℕ × ℤ) → List Segment
wait_from pid from none = []
wait_from pid from (some (time, by)) = segment (pos pid) blocked from time by ∷ []

-- A process waits from each switch away from it in a state that is not runnable.
abbrev pub waits : ℕ → History → List Segment
waits pid [] = []
waits pid ((switched prev next tsc cpu w, old) ∷ hs) =
    if prev.pid == pid && not (prev.state == 0)
    then wait_from pid tsc (wake_of pid hs) ++ waits pid hs
    else waits pid hs
waits pid ((_, old) ∷ hs) = waits pid hs

abbrev pub blocked_only : List Segment → List Segment
blocked_only [] = []
blocked_only (s ∷ ss) = if s.state ==ℤ blocked then s ∷ blocked_only ss else blocked_only ss

-- The vectors of the CPUs are in range.
abbrev pub InRange : Happening → Type 0
InRange (woken current p tsc cpu w) = cpu.softirqs_nr ≤ nr_softirqs
InRange _ = Unit
