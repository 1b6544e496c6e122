-- ===== src/Analyzer/Main/Trees.antt =====
-- The trees that the first loop of `main` makes.
use w_perf_archived.Base.{
  ℕ, suc, ℤ, ◌+◌, ◌*◌, ◌^◌, ◌<◌, ◌≤◌, ◌≡◌, refl, Option, none, some, List, [], ◌∷◌, ◌++◌, length,
  All, arith,
}
use w_perf_archived.Analyzer.Treemap.{Treemap}
use w_perf_archived.Analyzer.Treemap.Laws.{Above, Rising}
use w_perf_archived.Analyzer.Soft.{Soft, SoftMap}
use w_perf_archived.Analyzer.Soft.Nearest.{IsSoftMap}
use w_perf_archived.Analyzer.States.{Switch, States, last_time, get_prev_state}
use w_perf_archived.Analyzer.Segments.{Segment, break_into_segments}
use w_perf_archived.Analyzer.Segments.Chain.{Ordered}
use w_perf_archived.Analyzer.Segments.Tiles.{Tiles, Tiles-le}
use w_perf_archived.Analyzer.Segments.Broken.{unseen, Calm}
use w_perf_archived.Analyzer.Segments.Whole.{tail, Tiled, break_into_segments-Tiled}
use w_perf_archived.Analyzer.Segments.Size.{break_into_segments-AtMost}
use w_perf_archived.Analyzer.Cascade.Edges.{IsSpan}
use w_perf_archived.Analyzer.Cascade.Walk.{Keyed, Reaches, ReachesAll, IsWalkable}
use w_perf_archived.Analyzer.Main.{values}

-- The segments of a tree that covers a time, and of its tail.
abbrev pub IsWithin : ℕ → Segment → Type 0
IsWithin last w = IsSpan w × (w.etime ≤ last)

module _ (pid : ℤ) (last : ℕ) (small : last + 1 < 2 ^ 64) where
  Above-tail :
      (k b : ℕ) (es : List (ℕ × Segment)) (m : ℕ)
      → Above k es
      → Tiles last b es m
      → k < last
      → Above k (es ++ (last, tail pid last) ∷ [])
  Above-tail k b [] m a t l = (l, tt)
  Above-tail k b ((j, v) ∷ es) m (h, a) (p, q, r, l', a', t) l =
      (h, Above-tail j v.etime es m a t l')

  Tiles-Rising :
      (b : ℕ) (es : List (ℕ × Segment)) (m : ℕ)
      → Tiles last b es m
      → Rising (es ++ (last, tail pid last) ∷ [])
  Tiles-Rising b [] m t = tt
  Tiles-Rising b ((k, v) ∷ es) m (p, q, r, l, a, t) = Above-tail k v.etime es m a t l

  Tiles-Keyed :
      (b : ℕ) (es : List (ℕ × Segment)) (m : ℕ)
      → Tiles last b es m
      → Keyed (es ++ (last, tail pid last) ∷ [])
  Tiles-Keyed b [] m t = (refl, small, tt)
  Tiles-Keyed b ((k, v) ∷ es) m (p, q, r, l, a, t) = (q, omega arith, Tiles-Keyed v.etime es m t)

  Reaches-end :
      (u : Segment) (es : List (ℕ × Segment)) → Reaches last u (es ++ (last, tail pid last) ∷ [])
  Reaches-end u [] = omega arith
  Reaches-end u ((k, v) ∷ es) = Reaches-end v es

  ReachesAll-end : (es : List (ℕ × Segment)) → ReachesAll last (es ++ (last, tail pid last) ∷ [])
  ReachesAll-end [] = omega arith
  ReachesAll-end ((k, v) ∷ es) = Reaches-end v es

  Tiles-IsWithin :
      (b : ℕ) (es : List (ℕ × Segment)) (m : ℕ)
      → Tiles last b es m
      → m ≤ last
      → All (IsWithin last) (values (es ++ (last, tail pid last) ∷ []))
  Tiles-IsWithin b [] m t h = (((omega arith, omega arith), omega arith), tt)
  Tiles-IsWithin b ((k, v) ∷ es) m (p, q, r, l, a, t) h = (
    (
      (omega arith, omega (arith, Tiles-le last v.etime es m t)),
      omega (arith, Tiles-le last v.etime es m t),
    ),
    Tiles-IsWithin v.etime es m t h,
  )

module _ (M : Treemap Segment) where
  -- The tree of a process: no walk up to the end of the trace leaves it, its segments do not end
  -- before they begin or after the trace, and there are at most `n`.
  pub record IsWhole (last n : ℕ) (t : M.Tree) : Type 0 where
    pub walkable : IsWalkable M last t
    pub spans : All (IsWithin last) (values (M.entries t))
    pub size : length (M.entries t) ≤ n

  Tiled-IsWhole :
      {pid : ℤ} {last b m n : ℕ} {o : Option M.Tree}
      → last + 1 < 2 ^ 64
      → (r : Tiled M pid last b m o) → length (M.entries r.tree) ≤ n
      → IsWhole last n r.tree
  Tiled-IsWhole {pid} {last} {b} {m} small r l = record {
    walkable = record {
      rising = rw r.entries (Tiles-Rising pid last small b r.es m r.tiles);
      keyed = rw r.entries (Tiles-Keyed pid last small b r.es m r.tiles);
      reaches = rw r.entries (ReachesAll-end pid last small r.es);
    };
    spans = rw r.entries (Tiles-IsWithin pid last small b r.es m r.tiles r.within);
    size = l;
  }

  module _ (N : Treemap Soft) (softs : SoftMap N) (good : IsSoftMap N softs) where
    -- What the first loop makes of the empty tree of a process that did not exit.
    pub break_tree-IsWhole :
        (pid : ℤ) (s : States) (sw : Switch) (swl : List Switch) (t : M.Tree)
        → let last = last_time sw.time swl in
          get_prev_state s pid ≡ unseen last
          → s.exit_time pid ≡ none
          → Ordered sw.time swl
          → Calm N softs good pid last (sw ∷ swl)
          → last + 1 < 2 ^ 64
          → M.entries t ≡ []
          → (t' : M.Tree) × (break_into_segments N softs pid M s (sw ∷ swl) t ≡ some t')
            × IsWhole last (suc (3 * length (sw ∷ swl))) t'
    break_tree-IsWhole pid s sw swl t start stays o c small e =
        let r = break_into_segments-Tiled M N softs good pid s sw swl t start stays o c e in
        let size = break_into_segments-AtMost M N softs pid s (sw ∷ swl) t in
        (r.tree, r.returns, Tiled-IsWhole small r (omega (arith, rw (r.returns, e) at size)))
