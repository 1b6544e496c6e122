-- ===== src/Analyzer/Segments/Whole.antt =====
-- The whole of `BreakIntoSegments`, of analyzer/src/analyzer/lib/process/process.go, for a process
-- that did not exit, and its panic for one that did nothing but exit.
use w_perf_archived.Base.{
  ℕ, ℤ, negate, ◌≤◌, ◌≡◌, refl, sym, ap, ◌∙◌, Option, none, some, List, [], ◌∷◌, ◌++◌, arith, All,
  true, Bool-cases, inl, inr,
}
use w_perf_archived.Analyzer.Treemap.{Treemap, insert}
use w_perf_archived.Analyzer.Soft.{Soft, SoftMap}
use w_perf_archived.Analyzer.Soft.Nearest.{IsSoftMap}
use w_perf_archived.Analyzer.States.{
  Switch, PrevState, States, blocked, unknown, or_else, no_states, init_prev_states, last_time,
  get_prev_state,
}
use w_perf_archived.Analyzer.States.Laws.{is_in, exit_of, init_prev_states-timestamp}
use w_perf_archived.Analyzer.Segments.{
  Segment, segment, break_events, close_segments, break_into_segments,
}
use w_perf_archived.Analyzer.Segments.Chain.{Ordered}
use w_perf_archived.Analyzer.Segments.Tiles.{Tiles, replace-last}
use w_perf_archived.Analyzer.Segments.Broken.{
  first_switch, unseen, Seen, Calm, break_unseen, is_switch, quiet_step,
}

pub All-last_time :
    (d : ℕ) (swl : List Switch)
    → Ordered d swl
    → (d ≤ last_time d swl) × All (λ sw. sw.time ≤ last_time d swl) swl
unfolding last_time
All-last_time d [] o = (omega arith, tt)
All-last_time d (sw ∷ swl) (o, os) =
    let (l, a) = All-last_time sw.time swl os in (omega (arith, o, l), (l, a))

-- The segment that the analyzer puts after the last event of the trace.
abbrev pub tail : ℤ → ℕ → Segment
tail pid last = segment pid blocked last last (negate unknown)

module _ (M : Treemap Segment) where
  -- The entries of a result: segments that cover the time from `b` to `m`, and the tail.
  pub record Tiled (pid : ℤ) (last b m : ℕ) (o : Option M.Tree) : Type 0 where
    pub tree : M.Tree
    pub es : List (ℕ × Segment)
    pub returns : o ≡ some tree
    pub entries : M.entries tree ≡ es ++ (last, tail pid last) ∷ []
    pub tiles : Tiles last b es m
    pub within : m ≤ last

  close-Seen :
      (N : Treemap Soft) (softs : SoftMap N) (good : IsSoftMap N softs) (pid : ℤ) (last : ℕ)
      → (first : Option ℕ) (r : PrevState × M.Tree) → Seen N softs good pid last M first r
      → Tiled pid last
          (or_else first last)
          r.0.timestamp
          (close_segments N softs pid M last none (unseen last) r.1)
  unfolding close_segments
  close-Seen N softs good pid last none r (p, e) = record {
    tree = M.put last (tail pid last) r.1;
    es = [];
    returns = refl;
    entries = M.entries-put last (tail pid last) r.1 ∙ ap (insert last (tail pid last)) e;
    tiles = sym (ap (λ q. q.timestamp) p);
    within = omega (arith, ap (λ q. q.timestamp) p);
  }
  close-Seen N softs good pid last (some b) r c = record {
    tree = M.put last (tail pid last) r.1;
    es = c.es;
    returns = refl;
    entries =
        M.entries-put last (tail pid last) r.1
        ∙ ap (insert last (tail pid last)) c.entries
        ∙ replace-last last b c.es r.0.timestamp (tail pid last) c.x c.tiles;
    tiles = c.tiles;
    within = c.within;
  }

  module _ (N : Treemap Soft) (softs : SoftMap N) (good : IsSoftMap N softs) where
    pub break_into_segments-Tiled :
        (pid : ℤ) (s : States) (sw : Switch) (swl : List Switch) (t : M.Tree)
        → let last = last_time sw.time swl in
          get_prev_state s pid ≡ unseen last
          → s.exit_time pid ≡ none
          → Ordered sw.time swl
          → Calm N softs good pid last (sw ∷ swl)
          → M.entries t ≡ []
          → Tiled pid last
              (or_else (first_switch pid (sw ∷ swl)) last)
              (break_events N softs pid M (sw ∷ swl) (unseen last) t).0.timestamp
              (break_into_segments N softs pid M s (sw ∷ swl) t)
    unfolding break_into_segments
    break_into_segments-Tiled pid s sw swl t start stays o c e =
        let last = last_time sw.time swl in
        let (l, a) = All-last_time sw.time swl o in
        let seen =
          break_unseen N softs good pid last M (sw ∷ swl) sw.time t (omega arith, o) (l, a) c e in
        rw (start, stays)
          (close-Seen N softs good pid last (first_switch pid (sw ∷ swl))
            (break_events N softs pid M (sw ∷ swl) (unseen last) t) seen)

    -- For a listed pid without an exit, with sorted switches, an empty tree, and softirqs of which
    -- none that is found at a switch out, behind the first switch of the process, began before its
    -- last event or ends before it begins: `BreakIntoSegments` leaves segments under rising keys
    -- that cover, without a gap or an overlap, the time from the first switch of the process (the
    -- end of the trace if it has none) to its last event, and behind them one blocked segment
    -- without length at the end of the trace.
    pub segments-Tiled :
        (pl : List ℤ) (pid : ℤ) (sw : Switch) (swl : List Switch) (t : M.Tree)
        → let last = last_time sw.time swl in
          is_in pid pl ≡ true
          → exit_of pid (sw ∷ swl) none ≡ none
          → Ordered sw.time swl
          → Calm N softs good pid last (sw ∷ swl)
          → M.entries t ≡ []
          → (s : States) × (init_prev_states pl (sw ∷ swl) no_states ≡ some s)
            × Tiled pid last
                (or_else (first_switch pid (sw ∷ swl)) last)
                (break_events N softs pid M (sw ∷ swl) (unseen last) t).0.timestamp
                (break_into_segments N softs pid M s (sw ∷ swl) t)
    segments-Tiled pl pid sw swl t i h o c e =
        let (s, returns, start, stays) = init_prev_states-timestamp pl sw swl pid i in
        (
          s,
          returns,
          break_into_segments-Tiled pid s sw swl t (rw (start, h) refl) (stays ∙ h) o c e,
        )

  module _ (N : Treemap Soft) (softs : SoftMap N) (good : IsSoftMap N softs) where
    break_events-quiet :
        (pid : ℤ) (swl : List Switch) (b : ℕ) (t : M.Tree)
        → first_switch pid swl ≡ none
        → (break_events N softs pid M swl (unseen b) t).1 ≡ t
    unfolding first_switch break_events
    break_events-quiet pid [] b t h = refl
    break_events-quiet pid (sw ∷ swl) b t h = elim (Bool-cases (is_switch pid sw)) [
      | inl z ↦ absurd (cc (rw z at h))
      | inr z ↦
          rw (quiet_step N softs good pid b sw z, break_events)
            (break_events-quiet pid swl b t (rw z at h))
    ]

    -- For a listed pid that exits in the trace and that no switch goes out of or into, with an
    -- empty tree, `BreakIntoSegments` panics: there is no segment that it could end at the exit.
    pub segments-exit :
        (pl : List ℤ) (pid : ℤ) (sw : Switch) (swl : List Switch) (t : M.Tree) (time : ℕ)
        → is_in pid pl ≡ true
        → exit_of pid (sw ∷ swl) none ≡ some time
        → first_switch pid (sw ∷ swl) ≡ none
        → M.entries t ≡ []
        → (s : States) × (init_prev_states pl (sw ∷ swl) no_states ≡ some s)
          × (break_into_segments N softs pid M s (sw ∷ swl) t ≡ none)
    unfolding break_into_segments close_segments
    segments-exit pl pid sw swl t time i h q e =
        let (s, returns, start, exits) = init_prev_states-timestamp pl sw swl pid i in
        let quiet = break_events-quiet pid (sw ∷ swl) time t q in
        (s, returns, rw (start, h, exits ∙ h, quiet, M.floor-entries time t, e) refl)
