-- ===== src/Analyzer/Segments/Waits/Follow.antt =====
-- The blocked segments that `BreakIntoSegments` makes of a trace are the waits of the process.
use mathlib.Core.Path.{subst}
use w_perf_archived.Base.{
  ==ℤ_iff, ℕ, pos, ◌==ℤ◌, ◌==◌, ◌≤◌, ◌≡◌, refl, ap, sym, ◌∙◌, Bool, true, false, ◌&&◌, List, [],
  ◌∷◌, ◌++◌, if◌then◌else◌, arith, Bool-cases, inl, inr, All,
}
use w_perf_archived.Tracer.Text.{Bytes}
use w_perf_archived.Tracer.Events.{
  Cpu, Task, Where, Entry, nr_softirqs, on___switch_to_ent, on_try_to_wake_up_ent,
  on_wake_up_new_task_ent, on_do_exit_ent,
}
use w_perf_archived.Analyzer.Treemap.{Treemap}
use w_perf_archived.Analyzer.Soft.{Soft, SoftMap, get_ceiling_soft}
use w_perf_archived.Analyzer.States.{
  Switch, PrevState, runnable, blocked, nobody, update_to_runnable, update_to_running,
  update_to_stopped,
}
use w_perf_archived.Analyzer.Segments.{
  Segment, segment, run_segments, switch_step, put_all, break_events,
}
use w_perf_archived.Analyzer.Segments.Blame.{IsCopy, blamed, switch_step-blamed}
use w_perf_archived.Analyzer.Segments.Broken.{unseen}
use w_perf_archived.Analyzer.Segments.Waits.{
  Happening, switched, woken, created, exited, record_of, History, trace, wake_of, wait_from, waits,
  blocked_only, InRange,
}
use w_perf_archived.Analyzer.Segments.Waits.Made.{
  made, break_events-made, blocked_only-append, blocked_only-run_segments,
}

module _ (N : Treemap Soft) (softs : SoftMap N) (read : Entry → Switch) (copy : IsCopy read)
    (pid : ℕ) where
  -- The wait that the process is in, if it is in one, and the waits behind it.
  abbrev ahead : PrevState → History → List Segment
  ahead ps hs =
      (if ps.state ==ℤ blocked then wait_from pid ps.timestamp (wake_of pid hs) else [])
      ++ waits pid hs

  abbrev Goes : History → PrevState → Type 0
  Goes hs ps = blocked_only (made N softs (pos pid) (trace read hs) ps) ≡ ahead ps hs

  abbrev step : Happening → Entry → PrevState → PrevState × List Segment
  step h old ps = switch_step N softs (pos pid) (read (record_of h old)) ps

  -- One more happening.
  cons-Goes :
      (h : Happening) (old : Entry) (hs : History) (ps : PrevState) (r : PrevState × List Segment)
      → step h old ps ≡ r
      → Goes hs r.0
      → blocked_only r.1 ++ ahead r.0 hs ≡ ahead ps ((h, old) ∷ hs)
      → Goes ((h, old) ∷ hs) ps
  unfolding made
  cons-Goes h old hs ps r e g k =
      ap (λ q. blocked_only (q.1 ++ made N softs (pos pid) (trace read hs) q.0)) e
      ∙ blocked_only-append r.1 (made N softs (pos pid) (trace read hs) r.0)
      ∙ ap (λ l. blocked_only r.1 ++ l) g
      ∙ k

  switched-step :
      (prev next : Task) (tsc : ℕ) (cpu : Cpu) (w : Where) (old : Entry) (ps : PrevState)
      → let e = read (record_of (switched prev next tsc cpu w) old) in
        step (switched prev next tsc cpu w) old ps ≡ (
          if prev.pid == pid
          then (
            if prev.state == 0 then update_to_runnable tsc ps else update_to_stopped tsc ps,
            run_segments (pos pid) ps.timestamp tsc (get_ceiling_soft N softs e.cpu ps.timestamp),
          )
          else if next.pid == pid
          then (update_to_running tsc ps, segment (pos pid) runnable ps.timestamp tsc nobody ∷ [])
          else (ps, []))
  unfolding switch_step record_of on___switch_to_ent
  switched-step prev next tsc cpu w old ps =
      let e = record_of (switched prev next tsc cpu w) old in
      rw (copy.type e, copy.prev_pid e, copy.next_pid e, copy.prev_state e, copy.time e) refl

  woken-other :
      (current p : Task) (tsc : ℕ) (cpu : Cpu) (w : Where) (old : Entry) (ps : PrevState)
      → ((p.pid == pid) && (ps.state ==ℤ blocked)) ≡ false
      → step (woken current p tsc cpu w) old ps ≡ (ps, [])
  unfolding switch_step record_of on_try_to_wake_up_ent
  woken-other current p tsc cpu w old ps z =
      let e = record_of (woken current p tsc cpu w) old in rw (copy.type e, copy.next_pid e, z) refl

  created-step :
      (current p : Task) (tsc : ℕ) (old : Entry) (ps : PrevState)
      → step (created current p tsc) old ps ≡ (ps, [])
  unfolding switch_step record_of on_wake_up_new_task_ent
  created-step current p tsc old ps =
      let e = record_of (created current p tsc) old in rw (copy.type e) refl

  exited-step :
      (current : Task) (swapper : Bytes) (tsc : ℕ) (old : Entry) (ps : PrevState)
      → step (exited current swapper tsc) old ps ≡ (ps, [])
  unfolding switch_step record_of on_do_exit_ent
  exited-step current swapper tsc old ps =
      let e = record_of (exited current swapper tsc) old in rw (copy.type e) refl

  woken-blocked :
      (current p : Task) (tsc : ℕ) (cpu : Cpu) (w : Where) (old : Entry) (ps : PrevState)
      → cpu.softirqs_nr ≤ nr_softirqs
      → (p.pid == pid) ≡ true
      → (ps.state ==ℤ blocked) ≡ true
      → step (woken current p tsc cpu w) old ps ≡ (
        update_to_runnable tsc ps,
        segment (pos pid) blocked ps.timestamp tsc (blamed current cpu w) ∷ [],
      )
  unfolding record_of
  woken-blocked current p tsc cpu w old ps i a b =
      let same : p.pid ≡ pid = ground arith in
      subst
        (λ q.
          switch_step N softs (pos q) (read (on_try_to_wake_up_ent current p tsc cpu w old)) ps ≡ (
            update_to_runnable tsc ps,
            segment (pos q) blocked ps.timestamp tsc (blamed current cpu w) ∷ [],
          ))
        same
        (switch_step-blamed N softs read current p tsc cpu w old ps copy i
          ((==ℤ_iff ps.state blocked).0 b))

  no_wait : (b : Bool) (l : List Segment) → (if b then [] else []) ++ l ≡ l
  no_wait true l = refl
  no_wait false l = refl

  switched-Goes :
      (prev next : Task) (tsc : ℕ) (cpu : Cpu) (w : Where) (old : Entry) (hs : History)
      → ((ps : PrevState) → Goes hs ps)
      → (ps : PrevState) → Goes ((switched prev next tsc cpu w, old) ∷ hs) ps
  unfolding update_to_runnable update_to_stopped update_to_running
  switched-Goes prev next tsc cpu w old hs g ps =
      let e = read (record_of (switched prev next tsc cpu w) old) in
      let put =
        run_segments (pos pid) ps.timestamp tsc (get_ceiling_soft N softs e.cpu ps.timestamp) in
      let none_put : blocked_only put ≡ [] =
        blocked_only-run_segments (pos pid) ps.timestamp tsc _ in
      let at = switched-step prev next tsc cpu w old ps in
      elim (Bool-cases (prev.pid == pid)) [
        | inl a ↦ elim (Bool-cases (prev.state == 0)) [
          | inl z ↦
              cons-Goes _ old hs ps (update_to_runnable tsc ps, put) (at ∙ rw (a, z) refl) (g _)
                (rw (none_put, a, z) (sym (no_wait (ps.state ==ℤ blocked) (waits pid hs))))
          | inr z ↦
              cons-Goes _ old hs ps (update_to_stopped tsc ps, put) (at ∙ rw (a, z) refl) (g _)
                (rw (none_put, a, z) (sym (no_wait (ps.state ==ℤ blocked) _)))
        ]
        | inr a ↦ elim (Bool-cases (next.pid == pid)) [
          | inl b ↦
              cons-Goes _ old hs ps
                (update_to_running tsc ps, segment (pos pid) runnable ps.timestamp tsc nobody ∷ [])
                (at ∙ rw (a, b) refl) (g _)
                (rw (a, b) (sym (no_wait (ps.state ==ℤ blocked) (waits pid hs))))
          | inr b ↦ cons-Goes _ old hs ps (ps, []) (at ∙ rw (a, b) refl) (g _) (rw (a, b) refl)
        ]
      ]

  woken-Goes :
      (current p : Task) (tsc : ℕ) (cpu : Cpu) (w : Where) (old : Entry) (hs : History)
      → cpu.softirqs_nr ≤ nr_softirqs
      → ((ps : PrevState) → Goes hs ps)
      → (ps : PrevState) → Goes ((woken current p tsc cpu w, old) ∷ hs) ps
  unfolding update_to_runnable
  woken-Goes current p tsc cpu w old hs i g ps = elim (Bool-cases (p.pid == pid)) [
    | inl a ↦ elim (Bool-cases (ps.state ==ℤ blocked)) [
      | inl b ↦
          cons-Goes _ old hs ps _ (woken-blocked current p tsc cpu w old ps i a b) (g _)
            (rw (a, b) refl)
      | inr b ↦
          cons-Goes _ old hs ps (ps, []) (woken-other current p tsc cpu w old ps (rw (a, b) refl))
            (g _) (rw (a, b) refl)
    ]
    | inr a ↦
        cons-Goes _ old hs ps (ps, []) (woken-other current p tsc cpu w old ps (rw a refl)) (g _)
          (rw a refl)
  ]

  pub made-waits : (hs : History) → All (λ h. InRange h.0) hs → (ps : PrevState) → Goes hs ps
  unfolding made
  made-waits [] i = λ ps. sym (no_wait (ps.state ==ℤ blocked) [])
  made-waits ((switched prev next tsc cpu w, old) ∷ hs) (i, is) =
      switched-Goes prev next tsc cpu w old hs (made-waits hs is)
  made-waits ((woken current p tsc cpu w, old) ∷ hs) (i, is) =
      woken-Goes current p tsc cpu w old hs i (made-waits hs is)
  made-waits ((created current p tsc, old) ∷ hs) (i, is) = λ ps.
      cons-Goes _ old hs ps (ps, []) (created-step current p tsc old ps) (made-waits hs is ps) refl
  made-waits ((exited current swapper tsc, old) ∷ hs) (i, is) = λ ps.
      cons-Goes _ old hs ps (ps, []) (exited-step current swapper tsc old ps) (made-waits hs is ps)
        refl

  module _ (M : Treemap Segment) where
    -- For every history of switches, wake-ups, creations and exits, each recorded by the module
    -- over whatever the buffer held, with vectors up to the mark NR_SOFTIRQS at the wake-ups, and
    -- if what lies between carries over the type, the time, the pids, the state of the first
    -- process and the context of an entry: the blocked segments among those that the loop of
    -- `BreakIntoSegments` puts for a process, which it starts from the state that
    -- `PrevStateMap.Init` gives, are the waits of the process in the history, in their order: each
    -- from a switch away from it in a state that is not runnable up to its next wake-up, if no
    -- switch of it comes first, laid to the process that ran, to -11 in a hard interrupt, and to
    -- the vector with its sign changed in a softirq.
    pub break_events-waits :
        (hs : History) (last : ℕ) (t : M.Tree)
        → All (λ h. InRange h.0) hs
        → let ss = made N softs (pos pid) (trace read hs) (unseen last) in
          ((break_events N softs (pos pid) M (trace read hs) (unseen last) t).1
            ≡ put_all N softs (pos pid) M ss t)
          × (blocked_only ss ≡ waits pid hs)
    break_events-waits hs last t i = (
      break_events-made N softs (pos pid) M (trace read hs) (unseen last) t,
      made-waits hs i (unseen last),
    )
