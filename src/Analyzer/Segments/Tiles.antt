-- ===== src/Analyzer/Segments/Tiles.antt =====
-- The entries of a tree of segments that cover a time without a gap, before a last entry at the end
-- of the trace.
use w_perf_archived.Base.{
  ℕ, ◌<◌, ◌≤◌, ◌≡◌, refl, List, [], ◌∷◌, ◌++◌, ◌==◌, arith, Bool-cases, le→ltb, inl, inr,
}
use w_perf_archived.Analyzer.Treemap.{insert}
use w_perf_archived.Analyzer.Treemap.Laws.{Above, Above-insert}
use w_perf_archived.Analyzer.Segments.{Segment}

-- Segments under rising keys below `last`, which cover the time from `b` to `m`.
abbrev pub Tiles : ℕ → ℕ → List (ℕ × Segment) → ℕ → Type 0
Tiles last b [] m = b ≡ m
Tiles last b ((k, v) ∷ es) m =
    (k ≡ b) × (v.stime ≡ k) × (k ≤ v.etime) × (k < last) × Above k es × Tiles last v.etime es m

pub Tiles-le : (last b : ℕ) (es : List (ℕ × Segment)) (m : ℕ) → Tiles last b es m → b ≤ m
Tiles-le last b [] m h = omega arith
Tiles-le last b ((k, v) ∷ es) m (p, q, r, s, a, t) = omega (arith, Tiles-le last v.etime es m t)

-- Behind a segment without length nothing stands.
nothing_behind :
    (last k : ℕ) (es : List (ℕ × Segment)) (m : ℕ) → Above k es → Tiles last k es m → es ≡ []
nothing_behind last k [] m a t = refl
nothing_behind last k ((j, w) ∷ es) m (a, a') (p, q, r, l, c, t) = absurd (omega arith)

pub Tiles-insert :
    (last b : ℕ) (es : List (ℕ × Segment)) (m : ℕ) (s : Segment)
    → Tiles last b es m
    → s.stime ≡ m
    → m ≤ s.etime
    → m < last
    → Tiles last b (insert m s es) s.etime
Tiles-insert last b [] m s t e h l = (omega arith, e, h, l, tt, refl)
Tiles-insert last b ((k, v) ∷ es) m s (p, q, r, l', a, t) e h l =
    let up = Tiles-le last v.etime es m t in
    elim (Bool-cases (m == k)) [
      | inl z ↦
          let same : v.etime ≡ k = ground arith in
          let alone = nothing_behind last k es m a (rw same at t) in
          rw (le→ltb m k (omega arith), z, alone) (ground arith)
      | inr z ↦
          let past : k < m = ground arith in
          rw (le→ltb m k (omega arith), z)
            (p, q, r, l', Above-insert k m s es past a, Tiles-insert last v.etime es m s t e h l)
    ]

pub insert-last :
    (last b : ℕ) (es : List (ℕ × Segment)) (m : ℕ) (s x : Segment)
    → Tiles last b es m
    → m < last
    → insert m s (es ++ (last, x) ∷ []) ≡ insert m s es ++ (last, x) ∷ []
insert-last last b [] m s x t l = ground arith
insert-last last b ((k, v) ∷ es) m s x (p, q, r, l', a, t) l =
    ground (arith, insert-last last v.etime es m s x t l)

pub replace-last :
    (last b : ℕ) (es : List (ℕ × Segment)) (m : ℕ) (s x : Segment)
    → Tiles last b es m
    → insert last s (es ++ (last, x) ∷ []) ≡ es ++ (last, s) ∷ []
replace-last last b [] m s x t = ground arith
replace-last last b ((k, v) ∷ es) m s x (p, q, r, l', a, t) =
    ground (arith, replace-last last v.etime es m s x t)
