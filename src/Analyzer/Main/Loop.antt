-- ===== src/Analyzer/Main/Loop.antt =====
-- The first loop of `main`, over distinct pids that did not exit.
use w_perf_archived.Base.{
  ℕ, suc, ℤ, ◌==ℤ◌, ==ℤ_iff, ◌+◌, ◌*◌, ◌^◌, ◌<◌, ◌≡◌, refl, sym, ap, ◌∙◌, Bool, true, false, Option,
  none, some, List, [], ◌∷◌, length, All, Bool-cases, inl, inr,
}
use w_perf_archived.Analyzer.Treemap.{Treemap}
use w_perf_archived.Analyzer.Soft.{Soft, SoftMap}
use w_perf_archived.Analyzer.Soft.Nearest.{IsSoftMap}
use w_perf_archived.Analyzer.States.{Switch, States, set_key, last_time, get_prev_state}
use w_perf_archived.Analyzer.States.Laws.{is_in}
use w_perf_archived.Analyzer.Segments.{Segment}
use w_perf_archived.Analyzer.Segments.Chain.{Ordered}
use w_perf_archived.Analyzer.Segments.Broken.{unseen, Calm}
use w_perf_archived.Analyzer.Cascade.{SegmentMap}
use w_perf_archived.Analyzer.Main.{break_tree, put_tree, break_pids, init_seg_map, no_segments}
use w_perf_archived.Analyzer.Main.Trees.{IsWhole, break_tree-IsWhole}

-- No pid stands twice in the list.
abbrev pub AreDistinct : List ℤ → Type 0
AreDistinct [] = Unit
AreDistinct (v ∷ vs) = (is_in v vs ≡ false) × AreDistinct vs

pub ==ℤ_refl : (v : ℤ) → (v ==ℤ v) ≡ true
==ℤ_refl v = (==ℤ_iff v v).1 refl

pub is_in-head : (v : ℤ) (vs : List ℤ) → is_in v (v ∷ vs) ≡ true
is_in-head v vs = rw (==ℤ_refl v) refl

module _ (M : Treemap Segment) where
  init_seg_map-other :
      (N : Treemap Soft) (pl : List ℤ) (s : SegmentMap M) (v : ℤ)
      → is_in v pl ≡ false
      → init_seg_map M N pl s v ≡ s v
  unfolding init_seg_map
  init_seg_map-other N [] s v h = refl
  init_seg_map-other N (u ∷ us) s v h = elim (Bool-cases (u ==ℤ v)) [
    | inl z ↦ absurd (cc (rw z at h))
    | inr z ↦ init_seg_map-other N us _ v (rw z at h) ∙ rw z refl
  ]

  pub init_seg_map-listed :
      (N : Treemap Soft) (pl : List ℤ) (s : SegmentMap M) (v : ℤ)
      → is_in v pl ≡ true
      → init_seg_map M N pl s v ≡ some M.new_with
  unfolding init_seg_map
  init_seg_map-listed N [] s v h = absurd (cc h)
  init_seg_map-listed N (u ∷ us) s v h = elim (Bool-cases (is_in v us)) [
    | inl z ↦ init_seg_map-listed N us _ v z
    | inr z ↦
        init_seg_map-other N us _ v z
        ∙ elim (Bool-cases (u ==ℤ v)) [ inl w ↦ rw w refl | inr w ↦ absurd (cc (rw (w, z) at h)) ]
  ]

module _ (M : Treemap Segment) (last n : ℕ) where
  -- What stands for a pid that is listed or not, and that the loop has still to come to or not.
  abbrev pub Fits : Bool → Bool → Option M.Tree → Type 0
  Fits listed true none = ⊥
  Fits listed true (some t) = M.entries t ≡ []
  Fits listed false none = listed ≡ false
  Fits listed false (some t) = IsWhole M last n t

  -- The same of every pid, where `pl` is the list and `todo` what is left of it.
  abbrev pub FitsAll : List ℤ → List ℤ → SegmentMap M → Type 0
  FitsAll pl todo s = (v : ℤ) → Fits (is_in v pl) (is_in v todo) (s v)

  pub init_seg_map-FitsAll :
      (N : Treemap Soft) (pl : List ℤ) → FitsAll pl pl (init_seg_map M N pl (no_segments M N))
  init_seg_map-FitsAll N pl v = elim (Bool-cases (is_in v pl)) [
    | inl z ↦ rw (z, init_seg_map-listed M N pl (no_segments M N) v z) M.entries-new_with
    | inr z ↦ rw (z, init_seg_map-other M N pl (no_segments M N) v z) refl
  ]

-- The end of a trace, and how many segments it can break into.
abbrev pub end_of : Switch → List Switch → ℕ
end_of sw swl = last_time sw.time swl

abbrev pub bound : List Switch → ℕ
bound swl = suc (3 * length swl)

module _ (M : Treemap Segment) (N : Treemap Soft) (softs : SoftMap N) (good : IsSoftMap N softs)
    (st : States) (sw : Switch) (swl : List Switch) where
  -- The state that a process starts with when it did not exit, and the softirqs around it.
  abbrev pub IsStarted : ℤ → Type 0
  IsStarted pid =
      (get_prev_state st pid ≡ unseen (end_of sw swl))
      × (st.exit_time pid ≡ none)
      × Calm N softs good pid (end_of sw swl) (sw ∷ swl)

  -- What one round makes of what stands for its pid.
  break_tree-put :
      (listed : Bool) (pid : ℤ) (s : SegmentMap M) (o : Option M.Tree)
      → IsStarted pid
      → Ordered sw.time swl
      → end_of sw swl + 1 < 2 ^ 64
      → Fits M (end_of sw swl) (bound (sw ∷ swl)) listed true o
      → (t : M.Tree) × (put_tree M N s pid (break_tree M N softs st (sw ∷ swl) pid o)
          ≡ some (set_key s pid t))
        × IsWhole M (end_of sw swl) (bound (sw ∷ swl)) t
  break_tree-put listed pid s none (start, stays, calm) o small f = absurd f
  break_tree-put listed pid s (some t) (start, stays, calm) o small f =
      let (t', returns, whole) =
        break_tree-IsWhole M N softs good pid st sw swl t start stays o calm small f in
      (t', ap (put_tree M N s pid) returns, whole)

  FitsAll-put :
      (pl : List ℤ) (pid : ℤ) (todo : List ℤ) (s : SegmentMap M) (t : M.Tree)
      → FitsAll M (end_of sw swl) (bound (sw ∷ swl)) pl (pid ∷ todo) s
      → is_in pid todo ≡ false
      → IsWhole M (end_of sw swl) (bound (sw ∷ swl)) t
      → FitsAll M (end_of sw swl) (bound (sw ∷ swl)) pl todo (set_key s pid t)
  FitsAll-put pl pid todo s t f new whole v = elim (Bool-cases (pid ==ℤ v)) [
    | inl z ↦ rw (z, ap (λ u. is_in u todo) (sym ((==ℤ_iff pid v).0 z)) ∙ new) whole
    | inr z ↦ rw z (rw z at (f v))
  ]

  pub break_pids-FitsAll :
      (pl todo : List ℤ) (s : SegmentMap M)
      → All IsStarted todo
      → Ordered sw.time swl
      → end_of sw swl + 1 < 2 ^ 64
      → AreDistinct todo
      → FitsAll M (end_of sw swl) (bound (sw ∷ swl)) pl todo s
      → (s' : SegmentMap M) × (break_pids M N softs st (sw ∷ swl) todo s ≡ some s')
        × FitsAll M (end_of sw swl) (bound (sw ∷ swl)) pl [] s'
  unfolding break_pids
  break_pids-FitsAll pl [] s starts o small d f = (s, refl, f)
  break_pids-FitsAll pl (pid ∷ todo) s (start, starts) o small (new, d) f =
      let (t, put, whole) =
        break_tree-put (is_in pid pl) pid s (s pid) start o small
          (rw (is_in-head pid todo) at (f pid)) in
      let (s', returns, fits) =
        break_pids-FitsAll pl todo (set_key s pid t) starts o small d
          (FitsAll-put pl pid todo s t f new whole) in
      (s', rw (put, break_pids) returns, fits)
