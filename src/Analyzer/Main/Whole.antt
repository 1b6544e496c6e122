-- ===== src/Analyzer/Main/Whole.antt =====
-- A whole run of `main`, from its lists to the weights of the graph.
use w_perf_archived.Base.{
  ℕ, suc, ℤ, ◌==ℤ◌, ◌+◌, ◌%◌, ◌^◌, ◌<◌, ◌≤◌, ◌≡◌, refl, ◌∙◌, Bool, true, false, ◌||◌, none, some,
  List, [], ◌∷◌, All, arith,
}
use w_perf_archived.Tracer.Text.{Bytes}
use w_perf_archived.Analyzer.Treemap.{Treemap}
use w_perf_archived.Analyzer.Soft.{Soft, no_softs, init_soft_container}
use w_perf_archived.Analyzer.Soft.Nearest.{no_softs-IsSoftMap, init_soft_container-IsSoftMap}
use w_perf_archived.Analyzer.States.{Switch, States, no_states, init_comm_map, init_prev_states}
use w_perf_archived.Analyzer.States.Laws.{is_in, exit_of, AllStarted, init_prev_states-AllStarted}
use w_perf_archived.Analyzer.Segments.{Segment}
use w_perf_archived.Analyzer.Segments.Chain.{Ordered}
use w_perf_archived.Analyzer.Segments.Broken.{Calm}
use w_perf_archived.Analyzer.Cascade.{WaitForGraph, returns, SegmentMap}
use w_perf_archived.Analyzer.Cascade.Edges.{
  IsSpan, weight_of, total, add_waits, add_waits-weight_of,
}
use w_perf_archived.Analyzer.Main.{
  no_comms, no_weights, no_segments, init_seg_map, cascade_pids, break_pids, analyze,
}
use w_perf_archived.Analyzer.Main.Loop.{
  AreDistinct, is_in-head, init_seg_map-FitsAll, end_of, bound, IsStarted, break_pids-FitsAll,
}
use w_perf_archived.Analyzer.Main.Weights.{all_segments, cascade_pids-add_waits}

or_true : (b : Bool) → (b || true) ≡ true
or_true true = refl
or_true false = refl

-- The pids of a list are in it.
pub All-is_in :
    (pl pids : List ℤ)
    → ((v : ℤ) → is_in v pids ≡ true → is_in v pl ≡ true)
    → All (λ v. is_in v pl ≡ true) pids
All-is_in pl [] h = tt
All-is_in pl (v ∷ vs) h =
    (h v (is_in-head v vs), All-is_in pl vs (λ u q. h u (rw q (or_true (v ==ℤ u)))))

All-map :
    {A : Type 0} (P Q : A → Type 0) (xs : List A) → ((a : A) → P a → Q a) → All P xs → All Q xs
All-map P Q [] f h = tt
All-map P Q (x ∷ xs) f (h, hs) = (f x h, All-map P Q xs f hs)

module _ (M : Treemap Segment) (N : Treemap Soft) where
  -- A listed process that does not exit, around which the softirqs are as they should be.
  abbrev pub IsCalm : Switch → List Switch → List Soft → ℤ → Type 0
  IsCalm sw swl sl pid =
      (exit_of pid (sw ∷ swl) none ≡ none)
      × Calm N (init_soft_container N sl (no_softs N))
          (init_soft_container-IsSoftMap N sl (no_softs N) (no_softs-IsSoftMap N)) pid
          (end_of sw swl) (sw ∷ swl)

  pub All-IsStarted :
      (pl pids : List ℤ) (sw : Switch) (swl : List Switch) (sl : List Soft) (st : States)
      → AllStarted pl (end_of sw swl) (λ v. exit_of v (sw ∷ swl) none) st
      → All (λ v. is_in v pl ≡ true) pids
      → All (IsCalm sw swl sl) pids
      → All
          (IsStarted M N
            (init_soft_container N sl (no_softs N))
            (init_soft_container-IsSoftMap N sl (no_softs N) (no_softs-IsSoftMap N))
            st
            sw
            swl)
          pids
  All-IsStarted pl [] sw swl sl st f a c = tt
  All-IsStarted pl (v ∷ vs) sw swl sl st f (a, as') ((q, c), cs) =
      let (start, exits) = f v a in
      ((rw (start, q) refl, exits ∙ q, c), All-IsStarted pl vs sw swl sl st f as' cs)

  analyze-returns :
      (depth fuel : ℕ) (pl : List ℤ) (swl : List Switch) (sl : List Soft)
      → (st : States) (segs : SegmentMap M) (g : WaitForGraph)
      → init_prev_states pl swl no_states ≡ some st
      → break_pids M N
          (init_soft_container N sl (no_softs N))
          st
          swl
          pl
          (init_seg_map M N pl (no_segments M N))
        ≡ some segs
      → cascade_pids M N depth fuel (init_comm_map swl no_comms) segs pl no_weights ≡ returns g
      → analyze M N depth fuel pl swl sl ≡ returns g
  unfolding analyze
  analyze-returns depth fuel pl swl sl st segs g p q r = rw (p, q) r

  -- What a run comes to: the states and the segments that it has made, and a graph where each edge
  -- weighs what the segments add to it.
  pub record Analyzed (depth fuel : ℕ) (pl : List ℤ) (swl : List Switch) (sl : List Soft)
      : Type 0 where
    pub st : States
    pub segs : SegmentMap M
    pub graph : WaitForGraph
    pub starts : init_prev_states pl swl no_states ≡ some st
    pub breaks :
        break_pids M N
          (init_soft_container N sl (no_softs N))
          st
          swl
          pl
          (init_seg_map M N pl (no_segments M N))
        ≡ some segs
    pub ends : analyze M N depth fuel pl swl sl ≡ returns graph
    pub weights :
        (k : Bytes)
        → weight_of graph k ≡ total (init_comm_map swl no_comms) k (all_segments M segs pl) % 2 ^ 64

  -- Over distinct pids that do not exit in the trace, switches that are sorted by time and not
  -- empty, a last time with a successor below 2^64, and softirqs of which none that the analyzer
  -- finds at a switch out began before the last event of the process or ends before it begins: the
  -- run of the analyzer ends without a panic, with a depth of one call and with rounds for three
  -- segments of each event and one more; and the weight of each edge is the 64-bit sum of the times
  -- of the blocked segments that its loops have made between programs with these names.
  pub analyze-Analyzed :
      (depth fuel : ℕ) (pl : List ℤ) (sw : Switch) (swl : List Switch) (sl : List Soft)
      → bound (sw ∷ swl) ≤ fuel
      → AreDistinct pl
      → All (IsCalm sw swl sl) pl
      → Ordered sw.time swl
      → end_of sw swl + 1 < 2 ^ 64
      → Analyzed (suc depth) fuel pl (sw ∷ swl) sl
  analyze-Analyzed depth fuel pl sw swl sl enough d calm o small =
      let softs = init_soft_container N sl (no_softs N) in
      let good = init_soft_container-IsSoftMap N sl (no_softs N) (no_softs-IsSoftMap N) in
      let comms = init_comm_map (sw ∷ swl) no_comms in
      let (st, starts, started) = init_prev_states-AllStarted pl sw swl in
      let listed = All-is_in pl pl (λ v h. h) in
      let (segs, breaks, fits) =
        break_pids-FitsAll M N softs good st sw swl pl pl (init_seg_map M N pl (no_segments M N))
          (All-IsStarted pl pl sw swl sl st started listed calm) o small d
          (init_seg_map-FitsAll M (end_of sw swl) (bound (sw ∷ swl)) N pl) in
      let (ends, spans) =
        cascade_pids-add_waits M N (end_of sw swl) (bound (sw ∷ swl)) depth fuel comms segs pl pl
          no_weights fits enough listed in
      record {
        st = st;
        segs = segs;
        graph = add_waits comms (all_segments M segs pl) no_weights;
        starts = starts;
        breaks = breaks;
        ends = analyze-returns (suc depth) fuel pl (sw ∷ swl) sl st segs _ starts breaks ends;
        weights = λ k.
            add_waits-weight_of comms (all_segments M segs pl) no_weights k
              (All-map _ IsSpan (all_segments M segs pl) (λ w h. h.0) spans) (omega arith)
            ∙ omega arith;
      }
