-- ===== src/Analyzer/Main/History.antt =====
-- From what the scheduler did to the weights of the graph: the probes of module/trace_wperf_events.c and
-- `main` of analyzer/src/analyzer/main.go, with the reading of the trace between them.
use mathlib.Core.Option.{some-injective}
use w_perf_archived.Base.{
  ℕ, suc, ℤ, pos, ◌==ℤ◌, ◌+◌, ◌%◌, ◌^◌, ◌<◌, ◌≤◌, ◌≡◌, refl, sym, ap, ap₂, ◌∙◌, List, [], ◌∷◌, ◌++◌,
  arith, if◌then◌else◌, inl, inr, All, Bool-cases,
}
use w_perf_archived.Tracer.Text.{Bytes}
use w_perf_archived.Tracer.Events.{Entry}
use w_perf_archived.Analyzer.Treemap.{Treemap}
use w_perf_archived.Analyzer.Soft.{Soft, SoftMap, no_softs, init_soft_container}
use w_perf_archived.Analyzer.Soft.Nearest.{no_softs-IsSoftMap, init_soft_container-IsSoftMap}
use w_perf_archived.Analyzer.States.{Switch, Map, blocked, init_comm_map}
use w_perf_archived.Analyzer.States.Laws.{init_prev_states-AllStarted}
use w_perf_archived.Analyzer.Segments.{Segment}
use w_perf_archived.Analyzer.Segments.Blame.{IsCopy}
use w_perf_archived.Analyzer.Segments.Broken.{unseen}
use w_perf_archived.Analyzer.Segments.Chain.{Ordered}
use w_perf_archived.Analyzer.Segments.Waits.{History, trace, waits, blocked_only, InRange}
use w_perf_archived.Analyzer.Segments.Waits.Made.{made}
use w_perf_archived.Analyzer.Segments.Waits.Follow.{made-waits}
use w_perf_archived.Analyzer.Cascade.{WaitForGraph, returns}
use w_perf_archived.Analyzer.Cascade.Edges.{weight_of, time_on, total}
use w_perf_archived.Analyzer.Main.{no_comms, no_segments, init_seg_map, break_pids, analyze}
use w_perf_archived.Analyzer.Main.Loop.{AreDistinct, init_seg_map-listed, end_of, bound}
use w_perf_archived.Analyzer.Main.Totals.{total-append}
use w_perf_archived.Analyzer.Main.Listed.{AreEmpty, sum_made, break_pids-Made}
use w_perf_archived.Analyzer.Main.Weights.{all_segments}
use w_perf_archived.Analyzer.Main.Whole.{
  IsCalm, All-is_in, All-IsStarted, Analyzed, analyze-Analyzed,
}

abbrev pub pids_of : List ℕ → List ℤ
pids_of [] = []
pids_of (p ∷ ps) = pos p ∷ pids_of ps

-- The waits of all the processes.
abbrev pub all_waits : List ℕ → History → List Segment
all_waits [] hs = []
all_waits (p ∷ ps) hs = waits p hs ++ all_waits ps hs

-- Only a blocked segment adds to an edge.
total-blocked_only :
    (comms : Map Bytes) (edge : Bytes) (ss : List Segment)
    → total comms edge ss ≡ total comms edge (blocked_only ss)
total-blocked_only comms edge [] = refl
total-blocked_only comms edge (s ∷ ss) =
    let rest = total-blocked_only comms edge ss in
    elim (Bool-cases (s.state ==ℤ blocked)) [
      | inl e ↦
          ap (λ n. time_on comms edge s + n) rest
          ∙ sym (ap (λ b. total comms edge (if b then s ∷ blocked_only ss else blocked_only ss)) e)
      | inr e ↦ rw e (omega (arith, rest))
    ]

init_seg_map-AreEmpty :
    (M : Treemap Segment) (N : Treemap Soft) (pl : List ℤ)
    → AreEmpty M pl (init_seg_map M N pl (no_segments M N))
init_seg_map-AreEmpty M N pl v h =
    rw (init_seg_map-listed M N pl (no_segments M N) v h) M.entries-new_with

module _ (M : Treemap Segment) (N : Treemap Soft) (read : Entry → Switch) (copy : IsCopy read)
    (hs : History) (in_range : All (λ h. InRange h.0) hs) (sw : Switch) (swl : List Switch)
    (recorded : trace read hs ≡ sw ∷ swl) where
  sum_made-waits :
      (comms : Map Bytes) (edge : Bytes) (softs : SoftMap N) (ps : List ℕ)
      → sum_made comms edge N softs sw swl (pids_of ps) ≡ total comms edge (all_waits ps hs)
  sum_made-waits comms edge softs [] = refl
  sum_made-waits comms edge softs (p ∷ ps) =
      let last = end_of sw swl in
      let one : blocked_only (made N softs (pos p) (sw ∷ swl) (unseen last)) ≡ waits p hs =
        ap (λ l. blocked_only (made N softs (pos p) l (unseen last))) (sym recorded)
        ∙ made-waits N softs read copy p hs in_range (unseen last) in
      ap₂ (λ a b. a + b) (total-blocked_only comms edge _ ∙ ap (total comms edge) one)
        (sum_made-waits comms edge softs ps)
      ∙ sym (total-append comms edge (waits p hs) (all_waits ps hs))

  -- The segments of a run add what the waits add.
  Analyzed-waits :
      (depth fuel : ℕ) (ps : List ℕ) (sl : List Soft) (edge : Bytes)
      → AreDistinct (pids_of ps)
      → All (IsCalm M N sw swl sl) (pids_of ps)
      → Ordered sw.time swl
      → (a : Analyzed M N depth fuel (pids_of ps) (sw ∷ swl) sl)
      → total (init_comm_map (sw ∷ swl) no_comms) edge (all_segments M a.segs (pids_of ps))
        ≡ total (init_comm_map (sw ∷ swl) no_comms) edge (all_waits ps hs)
  Analyzed-waits depth fuel ps sl edge d calm o a =
      let pl = pids_of ps in
      let softs = init_soft_container N sl (no_softs N) in
      let good = init_soft_container-IsSoftMap N sl (no_softs N) (no_softs-IsSoftMap N) in
      let comms = init_comm_map (sw ∷ swl) no_comms in
      let (st, starts, started) = init_prev_states-AllStarted pl sw swl in
      let (segs, breaks, (other, adds)) =
        break_pids-Made comms edge M N softs good st sw swl pl
          (init_seg_map M N pl (no_segments M N))
          (All-IsStarted M N pl pl sw swl sl st started (All-is_in pl pl (λ v h. h)) calm) o d
          (init_seg_map-AreEmpty M N pl) in
      let same_st : st ≡ a.st = some-injective _ _ (sym starts ∙ a.starts) in
      let same_segs : a.segs ≡ segs = some-injective _ _ (
        sym a.breaks
        ∙ ap (λ z. break_pids M N softs z (sw ∷ swl) pl (init_seg_map M N pl (no_segments M N)))
            (sym same_st)
        ∙ breaks) in
      ap (λ s. total comms edge (all_segments M s pl)) same_segs
      ∙ adds
      ∙ sum_made-waits comms edge softs ps

  -- For every history of switches, wake-ups, creations and exits that is recorded by the module
  -- over whatever the buffer held, with vectors up to the mark NR_SOFTIRQS at the wake-ups, and
  -- read by what carries over the type, the time, the pids, the state of the first process and the
  -- context of an entry, as switches that are sorted by time and not empty, with a last time that
  -- has a successor below 2^64; for distinct pids that do not exit in it; and with softirqs of
  -- which none that the analyzer finds at a switch out of a process, behind its first switch, began
  -- before the last event of the process or ends before it begins: the run of the analyzer ends
  -- without a panic, with a depth of one call and with rounds for three segments of each event and
  -- one more; and in its graph each edge weighs the 64-bit sum of the times of the waits of these
  -- processes in the history, from a switch away in a state that is not runnable up to the next
  -- wake-up if no switch comes first, of a pid with the name at the start of the edge and laid to
  -- one with the name at its end, both names taken from the switches and not empty.
  pub analyze-waits :
      (depth fuel : ℕ) (ps : List ℕ) (sl : List Soft) (edge : Bytes)
      → bound (sw ∷ swl) ≤ fuel
      → AreDistinct (pids_of ps)
      → All (IsCalm M N sw swl sl) (pids_of ps)
      → Ordered sw.time swl
      → end_of sw swl + 1 < 2 ^ 64
      → (g : WaitForGraph) × (analyze M N (suc depth) fuel (pids_of ps) (trace read hs) sl
          ≡ returns g)
        × (weight_of g edge
            ≡ total (init_comm_map (trace read hs) no_comms) edge (all_waits ps hs) % 2 ^ 64)
  analyze-waits depth fuel ps sl edge enough d calm o small =
      let a = analyze-Analyzed M N depth fuel (pids_of ps) sw swl sl enough d calm o small in
      let weighs = Analyzed-waits (suc depth) fuel ps sl edge d calm o a in
      rw recorded (a.graph, a.ends, a.weights edge ∙ ap (λ n. n % 2 ^ 64) weighs)
