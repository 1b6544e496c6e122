-- ===== src/Analyzer/Main/Totals.antt =====
-- The time that the segments of a process add to an edge, in its tree and in what the loop of
-- `BreakIntoSegments` puts there: a segment that another one replaces has no length.
use native.Mathlib.Decide.{dec_lt}
use mathlib.Core.Path.{subst}
use w_perf_archived.Base.{
  ℕ, ℤ, ◌+◌, ◌<◌, ◌≤◌, ◌≡◌, ◌==◌, refl, ap, ◌∙◌, List, [], ◌∷◌, ◌++◌, arith, inl, inr, All,
  Bool-cases, le→ltb,
}
use w_perf_archived.Tracer.Text.{Bytes}
use w_perf_archived.Analyzer.Treemap.{Treemap, insert}
use w_perf_archived.Analyzer.Soft.{Soft, SoftMap}
use w_perf_archived.Analyzer.States.{Switch, PrevState, Map}
use w_perf_archived.Analyzer.Segments.{Segment, switch_step, put_all, break_events}
use w_perf_archived.Analyzer.Segments.Chain.{
  Chain, Ordered, Ordered-le, Undisturbed, switch_step-Links,
}
use w_perf_archived.Analyzer.Segments.Tiles.{
  Tiles, Tiles-insert, Tiles-le, insert-last, replace-last,
}
use w_perf_archived.Analyzer.Segments.Broken.{Chain-le}
use w_perf_archived.Analyzer.Segments.Waits.Made.{made}
use w_perf_archived.Analyzer.Cascade.Edges.{time_on, is_wait_on, total}
use w_perf_archived.Analyzer.Main.{values}

module _ (comms : Map Bytes) (edge : Bytes) where
  pub total-append :
      (ss ts : List Segment)
      → total comms edge (ss ++ ts) ≡ total comms edge ss + total comms edge ts
  total-append [] ts = omega arith
  total-append (s ∷ ss) ts = omega (arith, total-append ss ts)

  -- A segment without length adds nothing.
  pub no_length : (s : Segment) → s.etime ≤ s.stime → time_on comms edge s ≡ 0
  no_length s h = elim (Bool-cases (is_wait_on comms edge s)) [
    | inl e ↦ rw e (omega arith)
    | inr e ↦ rw e refl
  ]

  abbrev sum : List (ℕ × Segment) → ℕ
  sum es = total comms edge (values es)

  sum-insert :
      (last b : ℕ) (es : List (ℕ × Segment)) (m : ℕ) (s : Segment)
      → Tiles last b es m
      → m < last
      → sum (insert m s es) ≡ sum es + time_on comms edge s
  sum-insert last b [] m s t l = omega arith
  sum-insert last b ((k, v) ∷ es) m s (p, q, r, l', a, t) l =
      let up = Tiles-le last v.etime es m t in
      let rest = sum-insert last v.etime es m s t l in
      elim (Bool-cases (m == k)) [
        | inl z ↦
            let gone : time_on comms edge v ≡ 0 = no_length v (ground arith) in
            rw (le→ltb m k (omega arith), z) (omega (arith, gone))
        | inr z ↦ rw (le→ltb m k (omega arith), z) (omega (arith, rest))
      ]

  module _ (M : Treemap Segment) where
    -- The entries of a tree: segments that cover the time up to `m` and add `n`, and one under `last`.
    pub record Weighs (last b m n : ℕ) (t : M.Tree) : Type 0 where
      pub es : List (ℕ × Segment)
      pub x : Segment
      pub entries : M.entries t ≡ es ++ (last, x) ∷ []
      pub tiles : Tiles last b es m
      pub within : m ≤ last
      pub adds : sum es ≡ n

    put-Weighs :
        {last b m n : ℕ} {t : M.Tree} (s : Segment)
        → Weighs last b m n t
        → s.stime ≡ m
        → m ≤ s.etime
        → s.etime ≤ last
        → Weighs last b s.etime (n + time_on comms edge s) (M.put s.stime s t)
    put-Weighs {last} {b} {m} {n} {t} s c e h l = elim (dec_lt m last) [
      | yes lt ↦ record {
        es = insert m s c.es;
        x = c.x;
        entries =
            M.entries-put s.stime s t
            ∙ ap (λ k. insert k s (M.entries t)) e
            ∙ ap (insert m s) c.entries
            ∙ insert-last last b c.es m s c.x c.tiles lt;
        tiles = Tiles-insert last b c.es m s c.tiles e h lt;
        within = l;
        adds = sum-insert last b c.es m s c.tiles lt ∙ ap (λ k. k + time_on comms edge s) c.adds;
      }
      | no ge ↦
          let at_end : m ≡ last = omega (arith, c.within) in
          let all : s.etime ≡ m = omega arith in
          record {
            es = c.es;
            x = s;
            entries =
                M.entries-put s.stime s t
                ∙ ap (λ k. insert k s (M.entries t)) (e ∙ at_end)
                ∙ ap (insert last s) c.entries
                ∙ replace-last last b c.es m s c.x c.tiles;
            tiles = rw all c.tiles;
            within = l;
            adds = omega (arith, c.adds, no_length s (omega arith));
          }
    ]

    module _ (N : Treemap Soft) (softs : SoftMap N) (pid : ℤ) where
      put_all-Weighs :
          {last b : ℕ} (m n : ℕ) (ss : List Segment) (e : ℕ) (t : M.Tree)
          → Chain m ss e
          → e ≤ last
          → Weighs last b m n t
          → Weighs last b e (n + total comms edge ss) (put_all N softs pid M ss t)
      put_all-Weighs {last} {b} m n [] e t h l c =
          let same : n + 0 ≡ n = omega arith in rw (← h, same) c
      put_all-Weighs {last} {b} m n (s ∷ ss) e t (p, q, h) l c =
          let same : n + time_on comms edge s + total comms edge ss
              ≡ n + total comms edge (s ∷ ss) =
            omega arith in
          subst (λ k. Weighs last b e k (put_all N softs pid M ss (M.put s.stime s t))) same
            (put_all-Weighs s.etime (n + time_on comms edge s) ss e (M.put s.stime s t) h l
              (put-Weighs s c p q (omega (arith, Chain-le s.etime ss e h))))

      pub break_events-Weighs :
          {last b : ℕ} (n : ℕ) (swl : List Switch) (ps : PrevState) (t : M.Tree)
          → Ordered ps.timestamp swl
          → All (λ sw. sw.time ≤ last) swl
          → Undisturbed N softs pid swl ps
          → Weighs last b ps.timestamp n t
          → let r = break_events N softs pid M swl ps t in
            Weighs last b r.0.timestamp (n + total comms edge (made N softs pid swl ps)) r.1
      unfolding break_events made
      break_events-Weighs {last} {b} n [] ps t o a u c =
          let same : n + 0 ≡ n = omega arith in rw same c
      break_events-Weighs {last} {b} n (sw ∷ swl) ps t (o, os) (a, as') (u, us) c =
          let r = switch_step N softs pid sw ps in
          let k = switch_step-Links N softs pid sw ps o u in
          let more = made N softs pid swl r.0 in
          let same : n + total comms edge r.1 + total comms edge more
              ≡ n + total comms edge (r.1 ++ more) =
            omega (arith, total-append r.1 more) in
          subst
            (λ j.
              Weighs last b
                (break_events N softs pid M swl r.0 (put_all N softs pid M r.1 t)).0.timestamp j
                (break_events N softs pid M swl r.0 (put_all N softs pid M r.1 t)).1)
            same
            (break_events-Weighs (n + total comms edge r.1) swl _ _
              (Ordered-le _ sw.time swl k.below os) as' us
              (put_all-Weighs ps.timestamp n _ _ t k.chain (omega (arith, k.below)) c))
