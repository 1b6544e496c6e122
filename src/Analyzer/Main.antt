-- ===== src/Analyzer/Main.antt =====
-- A run of the analyzer, of analyzer/src/analyzer/main.go: from the pids, the switches and the softirqs
-- that the files give, to the wait-for graph.
pub mod Trees
pub mod Loop
pub mod Weights
pub mod Totals
pub mod Sums
pub mod Listed
pub mod Whole
pub mod History
use w_perf_archived.Base.{ℕ, ℤ, Option, none, some, List, [], ◌∷◌}
use w_perf_archived.Tracer.Text.{Bytes}
use w_perf_archived.Analyzer.Treemap.{Treemap}
use w_perf_archived.Analyzer.Soft.{Soft, SoftMap, no_softs, init_soft_container}
use w_perf_archived.Analyzer.States.{
  Switch, States, Map, set_key, no_states, init_prev_states, init_comm_map,
}
use w_perf_archived.Analyzer.Segments.{Segment, break_into_segments}
use w_perf_archived.Analyzer.Cascade.{
  WaitForGraph, Outcome, returns, panics, SegmentMap, each, and_then, cascade,
}

-- The maps that `init` makes.
abbrev pub no_comms : Map Bytes
no_comms pid = none

abbrev pub no_weights : WaitForGraph
no_weights k = none

abbrev pub values : List (ℕ × Segment) → List Segment
values [] = []
values ((k, v) ∷ es) = v ∷ values es

abbrev pub or_panic : {A : Type 0} → Option A → Outcome A
or_panic none = panics
or_panic (some a) = returns a

module _ (M : Treemap Segment) (N : Treemap Soft) where
  abbrev pub no_segments : SegmentMap M
  no_segments pid = none

  -- `SegmentMap.Init`.
  unfoldable pub init_seg_map : List ℤ → SegmentMap M → SegmentMap M
  init_seg_map [] s = s
  init_seg_map (pid ∷ pids) s = init_seg_map pids (set_key s pid M.new_with)

  -- A call of `Segments` on nil is a panic.
  abbrev pub break_tree : SoftMap N → States → List Switch → ℤ → Option M.Tree → Option M.Tree
  break_tree softs st swl pid none = none
  break_tree softs st swl pid (some t) = break_into_segments N softs pid M st swl t

  abbrev pub put_tree : SegmentMap M → ℤ → Option M.Tree → Option (SegmentMap M)
  put_tree s pid none = none
  put_tree s pid (some t) = some (set_key s pid t)

  -- The first loop of `main`.
  unfoldable pub break_pids :
      SoftMap N → States → List Switch → List ℤ → SegmentMap M → Option (SegmentMap M)
  unfolding break_into_segments
  break_pids softs st swl [] s = some s
  break_pids softs st swl (pid ∷ pids) s =
      elim (put_tree s pid (break_tree softs st swl pid (s pid))) [
        | none ↦ none
        | some s' ↦ break_pids softs st swl pids s'
      ]

  -- `ForEach` with `Cascade`, over the entries in their order.
  abbrev pub cascade_tree :
      ℕ → ℕ → Map Bytes → SegmentMap M → Option M.Tree → WaitForGraph → Outcome WaitForGraph
  cascade_tree depth fuel comms s none g = panics
  cascade_tree depth fuel comms s (some t) g =
      each M (cascade M depth fuel comms s) (values (M.entries t)) g

  -- The second loop.
  unfoldable pub cascade_pids :
      ℕ → ℕ → Map Bytes → SegmentMap M → List ℤ → WaitForGraph → Outcome WaitForGraph
  unfolding cascade
  cascade_pids depth fuel comms s [] g = returns g
  cascade_pids depth fuel comms s (pid ∷ pids) g =
      and_then M (cascade_tree depth fuel comms s (s pid) g) (cascade_pids depth fuel comms s pids)

  -- `main`, from the lists that it has read to the graph that it prints.
  unfoldable pub analyze : ℕ → ℕ → List ℤ → List Switch → List Soft → Outcome WaitForGraph
  unfolding break_pids cascade_pids init_seg_map init_comm_map init_prev_states init_soft_container
  analyze depth fuel pl swl sl =
      let comms = init_comm_map swl no_comms in
      let softs = init_soft_container N sl (no_softs N) in
      and_then M (or_panic (init_prev_states pl swl no_states)) (λ st.
        and_then M (or_panic (break_pids softs st swl pl (init_seg_map pl no_segments)))
          (λ segs. cascade_pids depth fuel comms segs pl no_weights))
