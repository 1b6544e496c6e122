-- ===== src/Analyzer/Cascade.antt =====
-- The wait-for graph, of analyzer/src/analyzer/lib/process/process.go: each time that one program
-- waits for another is added to the edge between them.
pub mod Edges
pub mod Walk
use w_perf_archived.Base.{
  ℕ, zero, suc, ℤ, ◌==ℤ◌, ◌+◌, ◌-◌, ◌%◌, ◌^◌, Bool, true, false, ◌&&◌, ◌||◌, not, Option, none,
  some, List, [], ◌∷◌, ◌++◌, ltb, leb, ◌==◌, if◌then◌else◌, same,
}
use w_perf_archived.Tracer.Text.{Bytes}
use w_perf_archived.Analyzer.Treemap.{Treemap}
use w_perf_archived.Analyzer.Soft.{value_of}
use w_perf_archived.Analyzer.States.{Map, or_else, blocked, get_comm}
use w_perf_archived.Analyzer.Segments.{Segment}

-- `WaitForGraph`, a map from strings.
abbrev pub WaitForGraph : Type 0
WaitForGraph = Bytes → Option ℕ

abbrev pub set_weight : WaitForGraph → Bytes → ℕ → WaitForGraph
set_weight g k n j = if same k j then some n else g j

-- `waitComm + "," + wakerComm + ","`
abbrev pub edge : Bytes → Bytes → Bytes
edge wait_comm waker_comm = wait_comm ++ b',' ∷ waker_comm ++ b',' ∷ []

-- `if _, ok := waitForGraph[k]; !ok`
abbrev pub zero_weight : WaitForGraph → Bytes → WaitForGraph
zero_weight g k = elim (g k) [ none ↦ set_weight g k 0 | some _ ↦ g ]

unfoldable pub add_weight : Map Bytes → ℤ → ℤ → ℕ → ℕ → WaitForGraph → WaitForGraph
unfolding get_comm
add_weight comms wait_id waker_id etime stime g =
    let wait_comm = get_comm comms wait_id in
    let waker_comm = get_comm comms waker_id in
    if same wait_comm [] || same waker_comm []
    then g
    else let k = edge wait_comm waker_comm in
      let g' = zero_weight g k in
      set_weight g' k ((or_else (g' k) 0 + (etime + 2 ^ 64 - stime) % 2 ^ 64) % 2 ^ 64)

-- What a loop comes to.
pub data Outcome (A : Type 0) : Type 0 where
  returns : A → Outcome A
  panics : Outcome A
  runs_on : Outcome A

module _ (M : Treemap Segment) where
  -- `SegmentMap`: the map from pids to tree maps, `none` where nil is.
  abbrev pub SegmentMap : Type 0
  SegmentMap = ℤ → Option M.Tree

  -- `append` of a copy of the segment, when it waits.
  abbrev pub collect : Segment → List Segment → List Segment
  collect seg segs = if seg.state ==ℤ blocked then segs ++ seg ∷ [] else segs

  -- The loop of `findAllWaitingSegments`, on fuel. `Ceiling` converts the nil that it gets where it
  -- finds nothing, which is a panic.
  unfoldable pub waiting_loop : ℕ → M.Tree → Segment → ℕ → List Segment → Outcome (List Segment)
  waiting_loop zero t seg etime segs = runs_on
  waiting_loop (suc fuel) t seg etime segs =
      let segs' = collect seg segs in
      if leb etime seg.etime then returns segs' else elim (M.ceiling ((seg.stime + 1) % 2 ^ 64) t) [
        | none ↦ panics
        | some (k, next) ↦
            if leb etime next.stime then returns segs' else waiting_loop fuel t next etime segs'
      ]

  -- The function returns nil where the loop ends, not what it collected.
  abbrev pub forget : Outcome (List Segment) → Outcome (List Segment)
  forget (returns segs) = returns []
  forget panics = panics
  forget runs_on = runs_on

  abbrev pub waiting_from : ℕ → M.Tree → Option (ℕ × Segment) → ℕ → Outcome (List Segment)
  waiting_from fuel t none etime = returns []
  waiting_from fuel t (some (k, seg)) etime = forget (waiting_loop fuel t seg etime [])

  abbrev pub waiting_of : ℕ → Option M.Tree → ℕ → ℕ → Outcome (List Segment)
  waiting_of fuel none etime stime = returns []
  waiting_of fuel (some t) etime stime = waiting_from fuel t (M.floor stime t) etime

  unfoldable pub find_all_waiting_segments : ℕ → SegmentMap → ℤ → ℕ → ℕ → Outcome (List Segment)
  unfolding waiting_loop
  find_all_waiting_segments fuel segs waker_id etime stime =
      waiting_of fuel (segs waker_id) etime stime

  -- The overlap of a segment with another.
  abbrev pub align : Segment → Segment → Segment
  align w seg = record seg {
    stime = if ltb seg.stime w.stime then w.stime else seg.stime;
    etime = if ltb w.etime seg.etime then w.etime else seg.etime;
  }

  abbrev pub and_then : {A B : Type 0} → Outcome A → (A → Outcome B) → Outcome B
  and_then (returns a) f = f a
  and_then panics f = panics
  and_then runs_on f = runs_on

  abbrev pub each :
      (Segment → WaitForGraph → Outcome WaitForGraph)
      → List Segment
      → WaitForGraph
      → Outcome WaitForGraph
  each f [] g = returns g
  each f (seg ∷ segs) g = and_then (f seg g) (each f segs)

  -- `Cascade`, on fuel for its depth and for the loop of each call.
  unfoldable pub cascade :
      ℕ → ℕ → Map Bytes → SegmentMap → Segment → WaitForGraph → Outcome WaitForGraph
  unfolding find_all_waiting_segments add_weight
  cascade zero fuel comms segs w g = runs_on
  cascade (suc depth) fuel comms segs w g =
      if not (w.state ==ℤ blocked)
      then returns g
      else let g' = add_weight comms w.pid w.wait_for w.etime w.stime g in
        and_then (find_all_waiting_segments fuel segs w.wait_for w.etime w.stime)
          (λ waits. each (λ seg. cascade depth fuel comms segs (align w seg)) waits g')
