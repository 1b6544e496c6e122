-- ===== src/Analyzer/Main/Weights.antt =====
-- The weights of the graph that a run comes to.
use w_perf_archived.Base.{
  ℕ, suc, ℤ, ◌≤◌, ◌≡◌, refl, Bool, true, false, Option, none, some, List, [], ◌∷◌, ◌++◌, All,
  All-append, arith,
}
use w_perf_archived.Tracer.Text.{Bytes}
use w_perf_archived.Analyzer.Treemap.{Treemap}
use w_perf_archived.Analyzer.Soft.{Soft}
use w_perf_archived.Analyzer.States.{Map}
use w_perf_archived.Analyzer.States.Laws.{is_in}
use w_perf_archived.Analyzer.Segments.{Segment}
use w_perf_archived.Analyzer.Cascade.{WaitForGraph, returns, SegmentMap, each, cascade}
use w_perf_archived.Analyzer.Cascade.Edges.{add_wait, add_waits}
use w_perf_archived.Analyzer.Cascade.Walk.{Reaches, ReachesAll, IsReady, cascade-add_wait}
use w_perf_archived.Analyzer.Main.{values, cascade_tree, cascade_pids}
use w_perf_archived.Analyzer.Main.Trees.{IsWithin}
use w_perf_archived.Analyzer.Main.Loop.{Fits, FitsAll}

Reaches-le :
    (d e : ℕ) (v : Segment) (es : List (ℕ × Segment)) → d ≤ e → Reaches e v es → Reaches d v es
Reaches-le d e v [] h r = omega arith
Reaches-le d e v ((k, w) ∷ es) h r = Reaches-le d e w es h r

ReachesAll-le : (d e : ℕ) (es : List (ℕ × Segment)) → d ≤ e → ReachesAll e es → ReachesAll d es
ReachesAll-le d e [] h r = tt
ReachesAll-le d e ((k, v) ∷ es) h r = Reaches-le d e v es h r

add_waits-append :
    (comms : Map Bytes) (vs ws : List Segment) (g : WaitForGraph)
    → add_waits comms (vs ++ ws) g ≡ add_waits comms ws (add_waits comms vs g)
add_waits-append comms [] ws g = refl
add_waits-append comms (v ∷ vs) ws g = add_waits-append comms vs ws (add_wait comms v g)

module _ (M : Treemap Segment) where
  abbrev pub segments_of : Option M.Tree → List Segment
  segments_of none = []
  segments_of (some t) = values (M.entries t)

  -- The segments of all the listed processes.
  abbrev pub all_segments : SegmentMap M → List ℤ → List Segment
  all_segments s [] = []
  all_segments s (pid ∷ pids) = segments_of (s pid) ++ all_segments s pids

  IsReady-Fits :
      (last n fuel e : ℕ) (listed : Bool) (o : Option M.Tree)
      → Fits M last n listed false o
      → n ≤ fuel
      → e ≤ last
      → IsReady M fuel e o
  IsReady-Fits last n fuel e listed none f h l = tt
  IsReady-Fits last n fuel e listed (some t) f h l = (
    record {
      rising = f.walkable.rising;
      keyed = f.walkable.keyed;
      reaches = ReachesAll-le e last (M.entries t) l f.walkable.reaches;
    },
    omega (arith, f.size),
  )

  module _ (N : Treemap Soft) (last n depth fuel : ℕ) (comms : Map Bytes) (s : SegmentMap M)
      (pl : List ℤ) where
    each-add_waits :
        (ws : List Segment) (g : WaitForGraph)
        → FitsAll M last n pl [] s
        → n ≤ fuel
        → All (IsWithin last) ws
        → each M (cascade M (suc depth) fuel comms s) ws g ≡ returns (add_waits comms ws g)
    each-add_waits [] g f h a = refl
    each-add_waits (w ∷ ws) g f h ((p, l), a) =
        let one =
          cascade-add_wait M depth fuel comms s w g
            (λ b. IsReady-Fits last n fuel w.etime _ (s w.wait_for) (f w.wait_for) h l) in
        rw one (each-add_waits ws (add_wait comms w g) f h a)

    cascade_tree-add_waits :
        (listed : Bool) (o : Option M.Tree) (g : WaitForGraph)
        → FitsAll M last n pl [] s
        → n ≤ fuel
        → Fits M last n listed false o
        → listed ≡ true
        → cascade_tree M N (suc depth) fuel comms s o g
            ≡ returns (add_waits comms (segments_of o) g)
          × All (IsWithin last) (segments_of o)
    cascade_tree-add_waits listed none g fs h f e = absurd (cc (e, f))
    cascade_tree-add_waits listed (some t) g fs h f e =
        (each-add_waits (values (M.entries t)) g fs h f.spans, f.spans)

    pub cascade_pids-add_waits :
        (pids : List ℤ) (g : WaitForGraph)
        → FitsAll M last n pl [] s
        → n ≤ fuel
        → All (λ v. is_in v pl ≡ true) pids
        → (cascade_pids M N (suc depth) fuel comms s pids g
            ≡ returns (add_waits comms (all_segments s pids) g))
          × All (IsWithin last) (all_segments s pids)
    unfolding cascade_pids
    cascade_pids-add_waits [] g f h a = (refl, tt)
    cascade_pids-add_waits (pid ∷ pids) g f h (a, as') =
        let here = segments_of (s pid) in
        let (one, spans) = cascade_tree-add_waits (is_in pid pl) (s pid) g f h (f pid) a in
        let (more, spans') = cascade_pids-add_waits pids (add_waits comms here g) f h as' in
        (
          rw (one, add_waits-append comms here (all_segments s pids) g) more,
          All-append _ here (all_segments s pids) spans spans',
        )
