-- ===== src/Analyzer/Segments/Chain.antt =====
-- The segments of a process follow one another without a gap.
use w_perf_archived.Base.{
  ℕ, ℤ, pos, ◌==ℤ◌, ◌≤◌, ◌≡◌, refl, Bool, true, false, ◌&&◌, Option, none, some, List, [], ◌∷◌,
  ◌++◌, if◌then◌else◌, arith,
}
use w_perf_archived.Analyzer.Treemap.{Treemap}
use w_perf_archived.Analyzer.Soft.{Soft, SoftMap, get_ceiling_soft}
use w_perf_archived.Analyzer.States.{
  Switch, PrevState, is_runnable, blocked, update_to_runnable, update_to_stopped,
}
use w_perf_archived.Analyzer.Segments.{Segment, run_segments, switch_step}

-- `ss` goes from `b` to `e`: each segment begins where the one before it ends, and none ends before it
-- begins.
abbrev pub Chain : ℕ → List Segment → ℕ → Type 0
Chain b [] e = b ≡ e
Chain b (s ∷ ss) e = (s.stime ≡ b) × (b ≤ s.etime) × Chain s.etime ss e

Chain-append :
    (b m e : ℕ) (ss ts : List Segment) → Chain b ss m → Chain m ts e → Chain b (ss ++ ts) e
Chain-append b m e [] ts h k = rw h k
Chain-append b m e (s ∷ ss) ts (p, q, h) k = (p, q, Chain-append s.etime m e ss ts h k)

-- The times rise from `b` on.
abbrev pub Ordered : ℕ → List Switch → Type 0
Ordered b [] = Unit
Ordered b (sw ∷ swl) = (b ≤ sw.time) × Ordered sw.time swl

pub Ordered-le : (b c : ℕ) (swl : List Switch) → b ≤ c → Ordered c swl → Ordered b swl
Ordered-le b c [] h o = tt
Ordered-le b c (sw ∷ swl) h (o, os) = (omega arith, os)

-- A softirq that is found begins at `pt` or later, and ends no sooner than it begins.
abbrev pub Behind : ℕ → Option Soft → Type 0
Behind pt none = Unit
Behind pt (some sf) = (pt ≤ sf.stime) × (sf.stime ≤ sf.etime)

run_segments-Chain :
    (pid : ℤ) (pt time : ℕ) (o : Option Soft)
    → pt ≤ time
    → Behind pt o
    → Chain pt (run_segments pid pt time o) time
unfolding run_segments
run_segments-Chain pid pt time none h b = (refl, h, refl)
run_segments-Chain pid pt time (some sf) h (p, q) = ground arith

-- What one event comes to: a chain of segments from the last event of the process to its new one.
pub record Links (b time : ℕ) (r : PrevState × List Segment) : Type 0 where
  pub chain : Chain b r.1 r.0.timestamp
  pub below : r.0.timestamp ≤ time

Links-if :
    (c : Bool) {b time : ℕ} {x y : PrevState × List Segment}
    → (c ≡ true → Links b time x)
    → Links b time y
    → Links b time (if c then x else y)
Links-if true h k = h refl
Links-if false h k = k

pub same_end :
    (c : Bool) (p q : PrevState) (time : ℕ)
    → p.timestamp ≡ time
    → q.timestamp ≡ time
    → (if c then p else q).timestamp ≡ time
same_end true p q time h k = h
same_end false p q time h k = k

module _ (N : Treemap Soft) (softs : SoftMap N) (pid : ℤ) where
  -- The event takes the process from its CPU.
  abbrev pub is_out : Switch → Bool
  is_out sw = (sw.type ==ℤ pos 0) && (sw.prev_pid ==ℤ pid)

  -- At each switch of the process out of its CPU, the softirq that the analyzer finds begins after
  -- the last event of the process.
  abbrev pub Undisturbed : List Switch → PrevState → Type 0
  Undisturbed [] ps = Unit
  Undisturbed (sw ∷ swl) ps =
      (is_out sw ≡ true → Behind ps.timestamp (get_ceiling_soft N softs sw.cpu ps.timestamp))
      × Undisturbed swl (switch_step N softs pid sw ps).0

  pub switch_step-Links :
      (sw : Switch) (ps : PrevState)
      → ps.timestamp ≤ sw.time
      → (is_out sw ≡ true → Behind ps.timestamp (get_ceiling_soft N softs sw.cpu ps.timestamp))
      → Links ps.timestamp sw.time (switch_step N softs pid sw ps)
  unfolding switch_step
  switch_step-Links sw ps h b =
      Links-if (sw.type ==ℤ pos 0)
        (λ e.
          Links-if (sw.prev_pid ==ℤ pid)
            (λ e'.
              let time =
                same_end (is_runnable sw.prev_state) (update_to_runnable sw.time ps)
                  (update_to_stopped sw.time ps) sw.time refl refl in
              record {
                chain =
                    rw time (run_segments-Chain pid ps.timestamp sw.time _ h (b (rw (e, e') refl)));
                below = omega (arith, time);
              })
            (Links-if (sw.next_pid ==ℤ pid)
              (λ e'. record { chain = (refl, h, refl); below = omega arith })
              (record { chain = refl; below = h })))
        (Links-if ((sw.type ==ℤ pos 1) && ((sw.next_pid ==ℤ pid) && (ps.state ==ℤ blocked)))
          (λ e. record { chain = (refl, h, refl); below = omega arith })
          (record { chain = refl; below = h }))
