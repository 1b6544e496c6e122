-- ===== src/Analyzer/Segments.antt =====
-- The segments of a process, of analyzer/src/analyzer/lib/process/process.go: the events of a trace
-- break its time into segments, each kept under its start.
-- A tree map holds pointers to segments; a change through such a pointer is a put of the changed
-- segment under the same key. `none` is a panic.
pub mod Chain
pub mod Tiles
pub mod Broken
pub mod Whole
pub mod Size
pub mod Blame
pub mod Waits
use w_perf_archived.Base.{
  ℕ, ℤ, pos, negate, ◌==ℤ◌, Bool, true, false, ◌&&◌, Option, none, some, List, [], ◌∷◌, ltb,
  if◌then◌else◌,
}
use w_perf_archived.Analyzer.Treemap.{Treemap}
use w_perf_archived.Analyzer.Soft.{Soft, SoftMap, get_ceiling_soft}
use w_perf_archived.Analyzer.States.{
  Switch, PrevState, States, running, runnable, blocked, process, unknown, nobody, is_runnable,
  update_to_running, update_to_runnable, update_to_stopped, last_time, get_prev_state,
}

pub record Segment : Type 0 where
  pub pid : ℤ
  pub state : ℤ
  pub stime : ℕ
  pub etime : ℕ
  pub wait_for : ℤ

-- The arguments of `Put`, and the segment that it makes of them.
abbrev pub segment : ℤ → ℤ → ℕ → ℕ → ℤ → Segment
segment pid state stime etime wait_for = record {
  pid = pid;
  state = state;
  stime = stime;
  etime = etime;
  wait_for = wait_for;
}

-- The segments of the time from `pt` to a switch out of the CPU, where `sf` is the softirq that ends
-- first after `pt`.
unfoldable pub run_segments : ℤ → ℕ → ℕ → Option Soft → List Segment
run_segments pid pt time none = segment pid running pt time nobody ∷ []
run_segments pid pt time (some sf) =
    if ltb sf.stime time && ltb sf.etime time
    then segment pid running pt sf.stime nobody
      ∷ segment pid runnable sf.stime sf.etime nobody
      ∷ segment pid running sf.etime time nobody
      ∷ []
    else segment pid running pt time nobody ∷ []

-- The waker: the process that it ran in, or the context with its sign changed.
abbrev pub waker : Switch → ℤ
waker sw = if sw.in_which_ctx ==ℤ process then sw.prev_pid else negate sw.in_which_ctx

module _ (N : Treemap Soft) (softs : SoftMap N) (pid : ℤ) where
  -- One round of the loop of `BreakIntoSegments`: the new state, and the segments that are put, in
  -- their order.
  unfoldable pub switch_step : Switch → PrevState → PrevState × List Segment
  unfolding run_segments update_to_running update_to_runnable update_to_stopped
  switch_step sw ps =
      if sw.type ==ℤ pos 0
      then (if sw.prev_pid ==ℤ pid
          then (
            if is_runnable sw.prev_state
                then update_to_runnable sw.time ps
                else update_to_stopped sw.time ps,
            run_segments pid ps.timestamp sw.time (get_ceiling_soft N softs sw.cpu ps.timestamp),
          )
          else if sw.next_pid ==ℤ pid
          then (update_to_running sw.time ps, segment pid runnable ps.timestamp sw.time nobody ∷ [])
          else (ps, []))
      else if (sw.type ==ℤ pos 1) && ((sw.next_pid ==ℤ pid) && (ps.state ==ℤ blocked))
      then (update_to_runnable sw.time ps, segment pid blocked ps.timestamp sw.time (waker sw) ∷ [])
      else (ps, [])

  module _ (M : Treemap Segment) where
    abbrev pub put_all : List Segment → M.Tree → M.Tree
    put_all [] t = t
    put_all (s ∷ ss) t = put_all ss (M.put s.stime s t)

    -- The loop.
    unfoldable pub break_events : List Switch → PrevState → M.Tree → PrevState × M.Tree
    unfolding switch_step
    break_events [] ps t = (ps, t)
    break_events (sw ∷ swl) ps t =
        let (ps', ss) = switch_step sw ps in break_events swl ps' (put_all ss t)

    -- `seg.ETime = t` for the segment that `Floor` finds, which is nil where it finds none.
    abbrev pub end_at : ℕ → Option (ℕ × Segment) → M.Tree → Option M.Tree
    end_at time none t = none
    end_at time (some (k, seg)) t = some (M.put k (record seg { etime = time }) t)

    abbrev pub close_blocked : ℕ → Option ℕ → PrevState → M.Tree → Option M.Tree
    close_blocked trace_etime (some time) ps t = end_at time (M.floor time t) t
    close_blocked trace_etime none ps t =
        some (M.put ps.timestamp (segment pid blocked ps.timestamp trace_etime (negate unknown)) t)

    -- What follows the loop, with the state that `GetPrevState` gives once more.
    unfoldable pub close_segments : ℕ → Option ℕ → PrevState → M.Tree → Option M.Tree
    close_segments trace_etime exit_time ps t =
        if ps.state ==ℤ running
        then some (M.put ps.timestamp (segment pid running ps.timestamp trace_etime nobody) t)
        else if ps.state ==ℤ runnable
        then some (M.put ps.timestamp (segment pid runnable ps.timestamp trace_etime nobody) t)
        else close_blocked trace_etime exit_time ps t

    -- `swl[len(swl)-1]` of an empty list is a panic.
    unfoldable pub break_into_segments : States → List Switch → M.Tree → Option M.Tree
    unfolding break_events close_segments last_time get_prev_state
    break_into_segments s [] t = none
    break_into_segments s (sw ∷ swl) t =
        let ps = get_prev_state s pid in
        close_segments (last_time sw.time swl) (s.exit_time pid) ps (break_events (sw ∷ swl) ps t).1
