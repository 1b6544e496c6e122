-- ===== src/Analyzer/Soft/Nearest.antt =====
-- Which span the analyzer finds, against a scan of the list of spans.
use w_perf_archived.Base.{
  ℕ, ℤ, ◌==ℤ◌, ==ℤ_iff, ◌≤◌, ◌≡◌, refl, sym, ap, ◌∙◌, Bool, true, ◌&&◌, Option, none, some, List,
  [], ◌∷◌, leb, if◌then◌else◌, arith, Bool-cases, inl, inr,
}
use w_perf_archived.Analyzer.Treemap.{Treemap, insert, ceiling_in}
use w_perf_archived.Analyzer.Treemap.Laws.{Rising, Rising-insert, Above}
use w_perf_archived.Analyzer.Soft.{
  Soft, value_of, SoftMap, no_softs, tree_or_new, put_soft, init_soft_container, ceiling_of,
  get_ceiling_soft,
}

-- `v` ends no later than the best span so far.
abbrev pub no_later : Soft → Option Soft → Bool
no_later v none = true
no_later v (some b) = leb v.etime b.etime

-- The span on `cpu` that ends first, at `time` or later; of those that end together, the last.
unfoldable pub nearest : ℤ → ℕ → List Soft → Option Soft → Option Soft
nearest cpu time [] best = best
nearest cpu time (v ∷ vs) best =
    nearest cpu time vs
      (if (v.cpu ==ℤ cpu) && (leb time v.etime && no_later v best) then some v else best)

-- Each span stands under its end.
abbrev pub Keyed : List (ℕ × Soft) → Type 0
Keyed [] = Unit
Keyed ((k, v) ∷ es) = (k ≡ v.etime) × Keyed es

Keyed-insert : (v : Soft) (es : List (ℕ × Soft)) → Keyed es → Keyed (insert v.etime v es)
Keyed-insert v [] h = (refl, tt)
Keyed-insert v ((j, w) ∷ es) (h, hs) = ground (arith, Keyed-insert v es)

Above-Rising : (b : ℕ) (es : List (ℕ × Soft)) → Above b es → Rising es
Above-Rising b [] h = tt
Above-Rising b ((k, v) ∷ es) h = h.1

ceiling_in-insert :
    (time : ℕ) (v : Soft) (es : List (ℕ × Soft))
    → Rising es
    → Keyed es
    → value_of (ceiling_in time (insert v.etime v es)) ≡ (
        if leb time v.etime && no_later v (value_of (ceiling_in time es))
        then some v
        else value_of (ceiling_in time es))
ceiling_in-insert time v [] r h = ground arith
ceiling_in-insert time v ((j, w) ∷ es) r (h, hs) =
    ground (arith, ceiling_in-insert time v es (Above-Rising j es r) hs)

-- What is found ends at the time that was asked for, or later.
ceiling_in-late :
    (time : ℕ) (es : List (ℕ × Soft)) (sf : Soft)
    → Keyed es
    → value_of (ceiling_in time es) ≡ some sf
    → time ≤ sf.etime
ceiling_in-late time [] sf h e = cc
ceiling_in-late time ((j, w) ∷ es) sf (h, hs) e = ground (arith, ceiling_in-late time es sf hs)

module _ (M : Treemap Soft) where
  abbrev softs : Option M.Tree → List (ℕ × Soft)
  softs t = M.entries (tree_or_new M t)

  abbrev pub IsSoftMap : SoftMap M → Type 0
  IsSoftMap s = (cpu : ℤ) → Rising (softs (s cpu)) × Keyed (softs (s cpu))

  pub no_softs-IsSoftMap : IsSoftMap (no_softs M)
  no_softs-IsSoftMap cpu = rw M.entries-new_with (tt, tt)

  put_soft-IsSoftMap : (v : Soft) (s : SoftMap M) → IsSoftMap s → IsSoftMap (put_soft M v s)
  unfolding put_soft
  put_soft-IsSoftMap v s h cpu = elim (Bool-cases (v.cpu ==ℤ cpu)) [
    | inl e ↦
        rw (e, M.entries-put)
          (
            Rising-insert v.etime v (softs (s v.cpu)) (h v.cpu).0,
            Keyed-insert v (softs (s v.cpu)) (h v.cpu).1,
          )
    | inr e ↦ rw e (h cpu)
  ]

  ceiling_of-softs :
      (time : ℕ) (o : Option M.Tree) → ceiling_of M time o ≡ value_of (ceiling_in time (softs o))
  ceiling_of-softs time none = rw M.entries-new_with refl
  ceiling_of-softs time (some t) = ap value_of (M.ceiling-entries time t)

  get_ceiling_soft-put_soft :
      (cpu : ℤ) (time : ℕ) (v : Soft) (s : SoftMap M)
      → IsSoftMap s
      → get_ceiling_soft M (put_soft M v s) cpu time ≡ (
          if (v.cpu ==ℤ cpu) && (leb time v.etime && no_later v (get_ceiling_soft M s cpu time))
          then some v
          else get_ceiling_soft M s cpu time)
  unfolding get_ceiling_soft put_soft
  get_ceiling_soft-put_soft cpu time v s h = elim (Bool-cases (v.cpu ==ℤ cpu)) [
    | inl e ↦
        let same : v.cpu ≡ cpu = (==ℤ_iff v.cpu cpu).0 e in
        let (r, k) = h v.cpu in
        let after =
          ap value_of (
            M.ceiling-entries time (M.put v.etime v (tree_or_new M (s v.cpu)))
            ∙ ap (ceiling_in time) (M.entries-put v.etime v (tree_or_new M (s v.cpu))))
          ∙ ceiling_in-insert time v (softs (s v.cpu)) r k in
        rw (e, ceiling_of-softs time (s cpu), ← same) after
    | inr e ↦ rw e refl
  ]

  scan :
      (cpu : ℤ) (time : ℕ) (vs : List Soft) (s : SoftMap M)
      → IsSoftMap s
      → get_ceiling_soft M (init_soft_container M vs s) cpu time
        ≡ nearest cpu time vs (get_ceiling_soft M s cpu time)
  unfolding init_soft_container nearest
  scan cpu time [] s h = refl
  scan cpu time (v ∷ vs) s h =
      scan cpu time vs (put_soft M v s) (put_soft-IsSoftMap v s h)
      ∙ ap (nearest cpu time vs) (get_ceiling_soft-put_soft cpu time v s h)

  -- For every list of softirqs, the one that the analyzer finds in its tree maps for a CPU and a
  -- time is the one that a scan of the list finds: of those on the CPU that end at the time or
  -- later the one that ends first, and of several that end together the last of the list.
  pub get_ceiling_soft-nearest :
      (cpu : ℤ) (time : ℕ) (vs : List Soft)
      → get_ceiling_soft M (init_soft_container M vs (no_softs M)) cpu time
        ≡ nearest cpu time vs none
  get_ceiling_soft-nearest cpu time vs =
      scan cpu time vs (no_softs M) no_softs-IsSoftMap ∙ unfold get_ceiling_soft in refl

  pub init_soft_container-IsSoftMap :
      (vs : List Soft) (s : SoftMap M) → IsSoftMap s → IsSoftMap (init_soft_container M vs s)
  unfolding init_soft_container
  init_soft_container-IsSoftMap [] s h = h
  init_soft_container-IsSoftMap (v ∷ vs) s h =
      init_soft_container-IsSoftMap vs (put_soft M v s) (put_soft-IsSoftMap v s h)

  pub get_ceiling_soft-late :
      (s : SoftMap M) (cpu : ℤ) (time : ℕ) (sf : Soft)
      → IsSoftMap s
      → get_ceiling_soft M s cpu time ≡ some sf
      → time ≤ sf.etime
  unfolding get_ceiling_soft
  get_ceiling_soft-late s cpu time sf h e =
      ceiling_in-late time (softs (s cpu)) sf (h cpu).1 (sym (ceiling_of-softs time (s cpu)) ∙ e)
