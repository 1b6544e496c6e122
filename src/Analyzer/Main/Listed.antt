-- ===== src/Analyzer/Main/Listed.antt =====
-- What the trees of all the listed processes add to an edge.
use w_perf_archived.Base.{
  ℕ, ℤ, ◌==ℤ◌, ==ℤ_iff, ◌+◌, ◌≡◌, refl, sym, ap, ap₂, ◌∙◌, true, false, Option, none, some, List,
  [], ◌∷◌, inl, inr, All, Bool-cases,
}
use w_perf_archived.Tracer.Text.{Bytes}
use w_perf_archived.Analyzer.Treemap.{Treemap}
use w_perf_archived.Analyzer.Soft.{Soft, SoftMap}
use w_perf_archived.Analyzer.Soft.Nearest.{IsSoftMap}
use w_perf_archived.Analyzer.States.{Switch, States, Map, set_key}
use w_perf_archived.Analyzer.States.Laws.{is_in}
use w_perf_archived.Analyzer.Segments.{Segment}
use w_perf_archived.Analyzer.Segments.Chain.{Ordered}
use w_perf_archived.Analyzer.Segments.Broken.{unseen}
use w_perf_archived.Analyzer.Segments.Waits.Made.{made}
use w_perf_archived.Analyzer.Cascade.{SegmentMap}
use w_perf_archived.Analyzer.Cascade.Edges.{total}
use w_perf_archived.Analyzer.Main.{break_tree, put_tree, break_pids}
use w_perf_archived.Analyzer.Main.Loop.{AreDistinct, is_in-head, ==ℤ_refl, end_of, IsStarted}
use w_perf_archived.Analyzer.Main.Weights.{segments_of, all_segments}
use w_perf_archived.Analyzer.Main.Totals.{total-append}
use w_perf_archived.Analyzer.Main.Sums.{break_into_segments-total}

module _ (M : Treemap Segment) where
  -- The trees of the pids that the loop has still to come to are empty.
  abbrev pub IsEmpty : Option M.Tree → Type 0
  IsEmpty none = ⊥
  IsEmpty (some t) = M.entries t ≡ []

  abbrev pub AreEmpty : List ℤ → SegmentMap M → Type 0
  AreEmpty todo s = (v : ℤ) → is_in v todo ≡ true → IsEmpty (s v)

  AreEmpty-put :
      (pid : ℤ) (todo : List ℤ) (s : SegmentMap M) (t : M.Tree)
      → AreEmpty (pid ∷ todo) s
      → is_in pid todo ≡ false
      → AreEmpty todo (set_key s pid t)
  AreEmpty-put pid todo s t f new v h = elim (Bool-cases (pid ==ℤ v)) [
    | inl z ↦ absurd (cc (sym h ∙ ap (λ u. is_in u todo) (sym ((==ℤ_iff pid v).0 z)) ∙ new))
    | inr z ↦ rw z (f v (rw (z, h) refl))
  ]

module _ (comms : Map Bytes) (edge : Bytes) (N : Treemap Soft) (softs : SoftMap N) (sw : Switch)
    (swl : List Switch) where
  -- What the loops over the events of the pids make, one after the other.
  abbrev pub sum_made : List ℤ → ℕ
  sum_made [] = 0
  sum_made (pid ∷ pids) =
      total comms edge (made N softs pid (sw ∷ swl) (unseen (end_of sw swl))) + sum_made pids

module _ (comms : Map Bytes) (edge : Bytes) (M : Treemap Segment) (N : Treemap Soft)
    (softs : SoftMap N) (good : IsSoftMap N softs) (st : States) (sw : Switch)
    (swl : List Switch) where
  abbrev Adds : ℤ → M.Tree → Type 0
  Adds pid t =
      total comms edge (segments_of M (some t))
      ≡ total comms edge (made N softs pid (sw ∷ swl) (unseen (end_of sw swl)))

  break_tree-Adds :
      (pid : ℤ) (s : SegmentMap M) (o : Option M.Tree)
      → IsStarted M N softs good st sw swl pid
      → Ordered sw.time swl
      → IsEmpty M o
      → (t : M.Tree) × (put_tree M N s pid (break_tree M N softs st (sw ∷ swl) pid o)
          ≡ some (set_key s pid t))
        × Adds pid t
  break_tree-Adds pid s none h o e = absurd e
  break_tree-Adds pid s (some t) (start, stays, calm) o e =
      let (t', returns, adds) =
        break_into_segments-total comms edge M N softs good pid st sw swl t start stays o calm e in
      (t', ap (put_tree M N s pid) returns, adds)

  -- The loop leaves the other pids alone.
  abbrev Made : List ℤ → SegmentMap M → SegmentMap M → Type 0
  Made todo s s' =
      ((v : ℤ) → is_in v todo ≡ false → s' v ≡ s v)
      × (total comms edge (all_segments M s' todo) ≡ sum_made comms edge N softs sw swl todo)

  Made-cons :
      (pid : ℤ) (todo : List ℤ) (s : SegmentMap M) (t : M.Tree) (s' : SegmentMap M)
      → is_in pid todo ≡ false
      → Adds pid t
      → Made todo (set_key s pid t) s'
      → Made (pid ∷ todo) s s'
  Made-cons pid todo s t s' new adds (other, rest) =
      let at : s' pid ≡ some t = other pid new ∙ rw (==ℤ_refl pid) refl in
      (
        (λ v h. elim (Bool-cases (pid ==ℤ v)) [
          | inl z ↦ absurd (cc (rw z at h))
          | inr z ↦ other v (rw z at h) ∙ rw z refl
        ]),
        total-append comms edge (segments_of M (s' pid)) (all_segments M s' todo)
            ∙ ap₂ (λ a b. a + b) (ap (λ o. total comms edge (segments_of M o)) at ∙ adds) rest,
      )

  pub break_pids-Made :
      (todo : List ℤ) (s : SegmentMap M)
      → All (IsStarted M N softs good st sw swl) todo
      → Ordered sw.time swl
      → AreDistinct todo
      → AreEmpty M todo s
      → (s' : SegmentMap M) × (break_pids M N softs st (sw ∷ swl) todo s ≡ some s') × Made todo s s'
  unfolding break_pids
  break_pids-Made [] s starts o d f = (s, refl, ((λ v h. refl), refl))
  break_pids-Made (pid ∷ todo) s (start, starts) o (new, d) f =
      let (t, put, adds) = break_tree-Adds pid s (s pid) start o (f pid (is_in-head pid todo)) in
      let (s', returns, made') =
        break_pids-Made todo (set_key s pid t) starts o d (AreEmpty-put M pid todo s t f new) in
      (s', rw (put, break_pids) returns, Made-cons pid todo s t s' new adds made')
