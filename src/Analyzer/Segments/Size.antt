-- ===== src/Analyzer/Segments/Size.antt =====
-- How many segments a process can come to have.
use w_perf_archived.Base.{
  ℕ, suc, ℤ, pos, ◌==ℤ◌, ◌+◌, ◌*◌, ◌≤◌, Bool, true, false, Option, none, some, List, [], ◌∷◌,
  length, if◌then◌else◌, arith,
}
use w_perf_archived.Analyzer.Treemap.{Treemap, insert}
use w_perf_archived.Analyzer.Soft.{Soft, SoftMap, get_ceiling_soft}
use w_perf_archived.Analyzer.States.{Switch, PrevState, States, last_time, get_prev_state}
use w_perf_archived.Analyzer.Segments.{
  Segment, run_segments, switch_step, put_all, break_events, end_at, close_blocked, close_segments,
  break_into_segments,
}

length-insert :
    {V : Type 0} (k : ℕ) (v : V) (es : List (ℕ × V)) → length (insert k v es) ≤ suc (length es)
length-insert k v [] = omega arith
length-insert k v ((j, w) ∷ es) = ground (arith, length-insert k v es)

length-run_segments :
    (pid : ℤ) (pt time : ℕ) (o : Option Soft) → length (run_segments pid pt time o) ≤ 3
unfolding run_segments
length-run_segments pid pt time none = omega arith
length-run_segments pid pt time (some sf) = ground arith

module _ (M : Treemap Segment) (N : Treemap Soft) (softs : SoftMap N) (pid : ℤ) where
  length-switch_step : (sw : Switch) (ps : PrevState) → length (switch_step N softs pid sw ps).1 ≤ 3
  unfolding switch_step
  length-switch_step sw ps =
      let run =
        length-run_segments pid ps.timestamp sw.time
          (get_ceiling_soft N softs sw.cpu ps.timestamp) in
      ground (arith, run)

  length-put :
      (k : ℕ) (s : Segment) (t : M.Tree)
      → length (M.entries (M.put k s t)) ≤ suc (length (M.entries t))
  length-put k s t = rw (M.entries-put k s t) (length-insert k s (M.entries t))

  length-put_all :
      (ss : List Segment) (t : M.Tree)
      → length (M.entries (put_all N softs pid M ss t)) ≤ length (M.entries t) + length ss
  length-put_all [] t = omega arith
  length-put_all (s ∷ ss) t =
      omega (arith, length-put s.stime s t, length-put_all ss (M.put s.stime s t))

  length-break_events :
      (swl : List Switch) (ps : PrevState) (t : M.Tree)
      → length (M.entries (break_events N softs pid M swl ps t).1)
        ≤ length (M.entries t) + 3 * length swl
  unfolding break_events
  length-break_events [] ps t = omega arith
  length-break_events (sw ∷ swl) ps t =
      let r = switch_step N softs pid sw ps in
      omega (
        arith,
        length-switch_step sw ps,
        length-put_all r.1 t,
        length-break_events swl r.0 (put_all N softs pid M r.1 t),
      )

  -- A result, where there is one, has at most `n` segments.
  abbrev pub AtMost : ℕ → Option M.Tree → Type 0
  AtMost n none = Unit
  AtMost n (some t) = length (M.entries t) ≤ n

  end_at-AtMost :
      (time : ℕ) (o : Option (ℕ × Segment)) (t : M.Tree)
      → AtMost (suc (length (M.entries t))) (end_at N softs pid M time o t)
  end_at-AtMost time none t = tt
  end_at-AtMost time (some (k, seg)) t = length-put k _ t

  close_blocked-AtMost :
      (last : ℕ) (o : Option ℕ) (ps : PrevState) (t : M.Tree)
      → AtMost (suc (length (M.entries t))) (close_blocked N softs pid M last o ps t)
  close_blocked-AtMost last none ps t = length-put _ _ t
  close_blocked-AtMost last (some time) ps t = end_at-AtMost time (M.floor time t) t

  AtMost-if :
      (n : ℕ) (c : Bool) (x y : Option M.Tree)
      → AtMost n x
      → AtMost n y
      → AtMost n (if c then x else y)
  AtMost-if n true x y h k = h
  AtMost-if n false x y h k = k

  AtMost-le : (m n : ℕ) (o : Option M.Tree) → m ≤ n → AtMost m o → AtMost n o
  AtMost-le m n none h a = tt
  AtMost-le m n (some t) h a = omega arith

  -- A result has at most three segments for each event and one more than before.
  pub break_into_segments-AtMost :
      (s : States) (swl : List Switch) (t : M.Tree)
      → AtMost
          (suc (length (M.entries t) + 3 * length swl))
          (break_into_segments N softs pid M s swl t)
  unfolding break_into_segments close_segments
  break_into_segments-AtMost s [] t = tt
  break_into_segments-AtMost s (sw ∷ swl) t =
      let ps = get_prev_state s pid in
      let t' = (break_events N softs pid M (sw ∷ swl) ps t).1 in
      AtMost-le (suc (length (M.entries t'))) _ _
        (omega (arith, length-break_events (sw ∷ swl) ps t))
        (AtMost-if _ (ps.state ==ℤ pos 0) _ _ (length-put _ _ t') (
          AtMost-if _ (ps.state ==ℤ pos 1) _ _ (length-put _ _ t')
            (close_blocked-AtMost (last_time sw.time swl) (s.exit_time pid) ps t')))
