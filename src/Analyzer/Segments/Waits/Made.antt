-- ===== src/Analyzer/Segments/Waits/Made.antt =====
-- The segments that the loop of `BreakIntoSegments` puts, as one list.
use w_perf_archived.Base.{
  ℕ, ℤ, ◌==ℤ◌, ◌≡◌, refl, ap, sym, ◌∙◌, Option, none, some, List, [], ◌∷◌, ◌++◌, arith, Bool-cases,
  inl, inr,
}
use w_perf_archived.Analyzer.Treemap.{Treemap}
use w_perf_archived.Analyzer.Soft.{Soft, SoftMap}
use w_perf_archived.Analyzer.States.{Switch, PrevState, blocked}
use w_perf_archived.Analyzer.Segments.{Segment, run_segments, switch_step, put_all, break_events}
use w_perf_archived.Analyzer.Segments.Waits.{blocked_only}

pub blocked_only-append :
    (ss ts : List Segment) → blocked_only (ss ++ ts) ≡ blocked_only ss ++ blocked_only ts
blocked_only-append [] ts = refl
blocked_only-append (s ∷ ss) ts = elim (Bool-cases (s.state ==ℤ blocked)) [
  | inl e ↦ rw e (ap (λ l. s ∷ l) (blocked_only-append ss ts))
  | inr e ↦ rw e (blocked_only-append ss ts)
]

pub blocked_only-run_segments :
    (pid : ℤ) (pt time : ℕ) (o : Option Soft) → blocked_only (run_segments pid pt time o) ≡ []
unfolding run_segments
blocked_only-run_segments pid pt time none = refl
blocked_only-run_segments pid pt time (some sf) = ground arith

module _ (N : Treemap Soft) (softs : SoftMap N) (pid : ℤ) where
  -- The segments that the loop puts.
  unfoldable pub made : List Switch → PrevState → List Segment
  made [] ps = []
  made (sw ∷ swl) ps = let r = switch_step N softs pid sw ps in r.1 ++ made swl r.0

  module _ (M : Treemap Segment) where
    put_all-append :
        (ss ts : List Segment) (t : M.Tree)
        → put_all N softs pid M (ss ++ ts) t ≡ put_all N softs pid M ts (put_all N softs pid M ss t)
    put_all-append [] ts t = refl
    put_all-append (s ∷ ss) ts t = put_all-append ss ts (M.put s.stime s t)

    pub break_events-made :
        (swl : List Switch) (ps : PrevState) (t : M.Tree)
        → (break_events N softs pid M swl ps t).1 ≡ put_all N softs pid M (made swl ps) t
    unfolding break_events made
    break_events-made [] ps t = refl
    break_events-made (sw ∷ swl) ps t =
        let r = switch_step N softs pid sw ps in
        break_events-made swl r.0 (put_all N softs pid M r.1 t)
        ∙ sym (put_all-append r.1 (made swl r.0) t)
