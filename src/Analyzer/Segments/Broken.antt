-- ===== src/Analyzer/Segments/Broken.antt =====
-- What `BreakIntoSegments` leaves of a process that the analyzer was asked for.
use w_perf_archived.Base.{
  ℕ, ℤ, pos, negsuc, ◌==ℤ◌, ◌≤◌, ◌≡◌, refl, ap, ◌∙◌, Bool, true, false, ◌&&◌, ◌||◌, Option, none,
  some, List, [], ◌∷◌, ◌++◌, if◌then◌else◌, arith, inl, inr, All, Bool-cases,
}
use native.Mathlib.Decide.{dec_lt}
use w_perf_archived.Analyzer.Treemap.{Treemap, insert}
use w_perf_archived.Analyzer.Soft.{Soft, SoftMap, get_ceiling_soft}
use w_perf_archived.Analyzer.Soft.Nearest.{IsSoftMap, get_ceiling_soft-late}
use w_perf_archived.Analyzer.States.{
  Switch, PrevState, is_runnable, update_to_runnable, update_to_stopped, runnable,
}
use w_perf_archived.Analyzer.Segments.{
  Segment, segment, run_segments, switch_step, put_all, break_events,
}
use w_perf_archived.Analyzer.Segments.Chain.{
  Chain, Ordered, Ordered-le, Undisturbed, switch_step-Links, same_end,
}
use w_perf_archived.Analyzer.Segments.Tiles.{Tiles, Tiles-insert, insert-last, replace-last}

module _ (M : Treemap Segment) where
  -- The entries of a tree: segments that cover the time from `b` to `m`, and one under `last`.
  pub record Covers (last b m : ℕ) (t : M.Tree) : Type 0 where
    pub es : List (ℕ × Segment)
    pub x : Segment
    pub entries : M.entries t ≡ es ++ (last, x) ∷ []
    pub tiles : Tiles last b es m
    pub within : m ≤ last

  put-Covers :
      {last b m : ℕ} {t : M.Tree} (s : Segment)
      → Covers last b m t
      → s.stime ≡ m
      → m ≤ s.etime
      → s.etime ≤ last
      → Covers last b s.etime (M.put s.stime s t)
  put-Covers {last} {b} {m} {t} s c e h l = elim (dec_lt m last) [
    | yes lt ↦ record {
      es = insert m s c.es;
      x = c.x;
      entries =
          M.entries-put s.stime s t
          ∙ ap (λ k. insert k s (M.entries t)) e
          ∙ ap (insert m s) c.entries
          ∙ insert-last last b c.es m s c.x c.tiles lt;
      tiles = Tiles-insert last b c.es m s c.tiles e h lt;
      within = l;
    }
    | no ge ↦
        let at_end : m ≡ last = omega (arith, c.within) in
        let all : s.etime ≡ m = omega arith in
        record {
          es = c.es;
          x = s;
          entries =
              M.entries-put s.stime s t
              ∙ ap (λ k. insert k s (M.entries t)) (e ∙ at_end)
              ∙ ap (insert last s) c.entries
              ∙ replace-last last b c.es m s c.x c.tiles;
          tiles = rw all c.tiles;
          within = l;
        }
  ]

pub Chain-le : (b : ℕ) (ss : List Segment) (e : ℕ) → Chain b ss e → b ≤ e
Chain-le b [] e h = omega arith
Chain-le b (s ∷ ss) e (p, q, h) = omega (arith, Chain-le s.etime ss e h)

module _ (M : Treemap Segment) (N : Treemap Soft) (softs : SoftMap N) (pid : ℤ) where
  put_all-Covers :
      {last b : ℕ} (m : ℕ) (ss : List Segment) (e : ℕ) (t : M.Tree)
      → Chain m ss e
      → e ≤ last
      → Covers M last b m t
      → Covers M last b e (put_all N softs pid M ss t)
  put_all-Covers m [] e t h l c = rw (← h) c
  put_all-Covers m (s ∷ ss) e t (p, q, h) l c =
      put_all-Covers s.etime ss e (M.put s.stime s t) h l
        (put-Covers M s c p q (omega (arith, Chain-le s.etime ss e h)))

  break_events-Covers :
      {last b : ℕ} (swl : List Switch) (ps : PrevState) (t : M.Tree)
      → Ordered ps.timestamp swl
      → All (λ sw. sw.time ≤ last) swl
      → Undisturbed N softs pid swl ps
      → Covers M last b ps.timestamp t
      → let r = break_events N softs pid M swl ps t in Covers M last b r.0.timestamp r.1
  unfolding break_events
  break_events-Covers [] ps t o a u c = c
  break_events-Covers (sw ∷ swl) ps t (o, os) (a, as') (u, us) c =
      let k = switch_step-Links N softs pid sw ps o u in
      break_events-Covers swl _ _ (Ordered-le _ sw.time swl k.below os) as' us
        (put_all-Covers ps.timestamp _ _ t k.chain (omega (arith, k.below)) c)

-- A switch of the process.
abbrev pub is_switch : ℤ → Switch → Bool
is_switch pid sw = (sw.type ==ℤ pos 0) && ((sw.prev_pid ==ℤ pid) || (sw.next_pid ==ℤ pid))

-- The time of the first switch of the process.
unfoldable pub first_switch : ℤ → List Switch → Option ℕ
first_switch pid [] = none
first_switch pid (sw ∷ swl) = if is_switch pid sw then some sw.time else first_switch pid swl

-- The state that `PrevStateMap.Init` gives.
abbrev pub unseen : ℕ → PrevState
unseen time = record { timestamp = time; state = negsuc 0 }

-- One segment, which runs backwards from `last`.
abbrev pub OneFrom : ℕ → List Segment → Type 0
OneFrom last ss = (s : Segment) × (ss ≡ s ∷ []) × (s.stime ≡ last) × (s.etime ≤ last)

run_segments-late :
    (pid : ℤ) (last time : ℕ) (o : Option Soft)
    → time ≤ last
    → ((sf : Soft) → o ≡ some sf → last ≤ sf.etime)
    → run_segments pid last time o ≡ segment pid (pos 0) last time (pos 0) ∷ []
unfolding run_segments
run_segments-late pid last time none h late = refl
run_segments-late pid last time (some sf) h late = ground (arith, late sf refl)

module _ (N : Treemap Soft) (softs : SoftMap N) (good : IsSoftMap N softs) (pid : ℤ)
    (last : ℕ) where
  pub quiet_step :
      (sw : Switch)
      → is_switch pid sw ≡ false
      → switch_step N softs pid sw (unseen last) ≡ (unseen last, [])
  unfolding switch_step
  quiet_step sw h = ground arith

  pub first_step :
      (sw : Switch)
      → sw.time ≤ last
      → is_switch pid sw ≡ true
      → let r = switch_step N softs pid sw (unseen last) in
        (r.0.timestamp ≡ sw.time) × OneFrom last r.1
  unfolding switch_step
  first_step sw h e =
      let z : (sw.type ==ℤ pos 0) ≡ true = ground arith in
      elim (Bool-cases (sw.prev_pid ==ℤ pid)) [
        | inl p ↦
            let one =
              run_segments-late pid last sw.time (get_ceiling_soft N softs sw.cpu last) h
                (λ sf q. get_ceiling_soft-late N softs sw.cpu last sf good q) in
            rw (z, p)
              (
                same_end (is_runnable sw.prev_state) (update_to_runnable sw.time (unseen last))
                    (update_to_stopped sw.time (unseen last)) sw.time refl refl,
                (segment pid (pos 0) last sw.time (pos 0), one, refl, h),
              )
        | inr p ↦
            let n : (sw.next_pid ==ℤ pid) ≡ true = ground arith in
            rw (z, p, n) (refl, (segment pid runnable last sw.time (pos 0), refl, refl, h))
      ]

  -- What the loop has made of a process that it has seen first at `b`, or not at all.
  abbrev pub Seen : (M : Treemap Segment) → Option ℕ → PrevState × M.Tree → Type 0
  Seen M none r = (r.0 ≡ unseen last) × (M.entries r.1 ≡ [])
  Seen M (some b) r = Covers M last b r.0.timestamp r.1

  -- The hypothesis on softirqs, from the first switch of the process on.
  abbrev pub IfType : Bool → Type 0 → Type 0 → Type 0
  IfType true A B = A
  IfType false A B = B

  abbrev pub Calm : List Switch → Type 0
  Calm [] = Unit
  Calm (sw ∷ swl) =
      IfType (is_switch pid sw)
        (Undisturbed N softs pid swl (switch_step N softs pid sw (unseen last)).0) (Calm swl)

  module _ (M : Treemap Segment) where
    one_entry :
        (s : Segment) (t : M.Tree) (b : ℕ)
        → M.entries t ≡ []
        → s.stime ≡ last
        → b ≤ last
        → Covers M last b b (M.put s.stime s t)
    one_entry s t b e h l = record {
      es = [];
      x = s;
      entries = M.entries-put s.stime s t ∙ ap (insert s.stime s) e ∙ ap (λ k. (k, s) ∷ []) h;
      tiles = refl;
      within = l;
    }

    pub break_unseen :
        (swl : List Switch) (b : ℕ) (t : M.Tree)
        → Ordered b swl
        → All (λ sw. sw.time ≤ last) swl
        → Calm swl
        → M.entries t ≡ []
        → Seen M (first_switch pid swl) (break_events N softs pid M swl (unseen last) t)
    unfolding first_switch break_events
    break_unseen [] b t o a c e = (refl, e)
    break_unseen (sw ∷ swl) b t (o, os) (a, as') c e = elim (Bool-cases (is_switch pid sw)) [
      | inr z ↦ rw (z, quiet_step sw z) (break_unseen swl sw.time t os as' (rw z at c) e)
      | inl z ↦
          let (time, (s, one, start, ends)) = first_step sw a z in
          let r = switch_step N softs pid sw (unseen last) in
          let put : Covers M last sw.time r.0.timestamp (put_all N softs pid M r.1 t) =
            rw (time, one) (one_entry s t sw.time e start a) in
          rw z (
            break_events-Covers M N softs pid swl r.0 (put_all N softs pid M r.1 t)
              (Ordered-le r.0.timestamp sw.time swl (omega (arith, time)) os) as' (rw z at c) put)
    ]
