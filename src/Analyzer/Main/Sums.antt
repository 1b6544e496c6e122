-- ===== src/Analyzer/Main/Sums.antt =====
-- What the tree of a process that did not exit adds to an edge.
use w_perf_archived.Base.{
  ℕ, ℤ, ◌+◌, ◌≤◌, ◌≡◌, refl, ap, ◌∙◌, Option, none, some, List, [], ◌∷◌, ◌++◌, arith, inl, inr, All,
  Bool-cases,
}
use w_perf_archived.Tracer.Text.{Bytes}
use w_perf_archived.Analyzer.Treemap.{Treemap, insert}
use w_perf_archived.Analyzer.Soft.{Soft, SoftMap}
use w_perf_archived.Analyzer.Soft.Nearest.{IsSoftMap}
use w_perf_archived.Analyzer.States.{Switch, PrevState, States, Map, last_time, get_prev_state}
use w_perf_archived.Analyzer.Segments.{
  Segment, switch_step, put_all, break_events, close_segments, break_into_segments,
}
use w_perf_archived.Analyzer.Segments.Chain.{Ordered, Ordered-le}
use w_perf_archived.Analyzer.Segments.Tiles.{replace-last}
use w_perf_archived.Analyzer.Segments.Broken.{
  first_switch, unseen, Calm, is_switch, quiet_step, first_step,
}
use w_perf_archived.Analyzer.Segments.Whole.{tail, All-last_time}
use w_perf_archived.Analyzer.Segments.Waits.Made.{made}
use w_perf_archived.Analyzer.Cascade.Edges.{total}
use w_perf_archived.Analyzer.Main.{values}
use w_perf_archived.Analyzer.Main.Totals.{total-append, no_length, Weighs, break_events-Weighs}

module _ (comms : Map Bytes) (edge : Bytes) (M : Treemap Segment) where
  -- What the loop has made of a process that it has seen first at `b`, or not at all.
  abbrev Sums : ℕ → Option ℕ → ℕ → PrevState × M.Tree → Type 0
  Sums last none n r = (r.0 ≡ unseen last) × (M.entries r.1 ≡ []) × (n ≡ 0)
  Sums last (some b) n r = Weighs comms edge M last b r.0.timestamp n r.1

  one_entry :
      (last : ℕ) (s : Segment) (t : M.Tree) (b : ℕ)
      → M.entries t ≡ []
      → s.stime ≡ last
      → b ≤ last
      → Weighs comms edge M last b b 0 (M.put s.stime s t)
  one_entry last s t b e h l = record {
    es = [];
    x = s;
    entries = M.entries-put s.stime s t ∙ ap (insert s.stime s) e ∙ ap (λ k. (k, s) ∷ []) h;
    tiles = refl;
    within = l;
    adds = refl;
  }

  values-append : (es fs : List (ℕ × Segment)) → values (es ++ fs) ≡ values es ++ values fs
  values-append [] fs = refl
  values-append ((k, v) ∷ es) fs = ap (λ l. v ∷ l) (values-append es fs)

  module _ (N : Treemap Soft) (softs : SoftMap N) (good : IsSoftMap N softs) (pid : ℤ) where
    break_unseen-Sums :
        (last : ℕ) (swl : List Switch) (b : ℕ) (t : M.Tree)
        → Ordered b swl
        → All (λ sw. sw.time ≤ last) swl
        → Calm N softs good pid last swl
        → M.entries t ≡ []
        → Sums last
            (first_switch pid swl)
            (total comms edge (made N softs pid swl (unseen last)))
            (break_events N softs pid M swl (unseen last) t)
    unfolding first_switch break_events made
    break_unseen-Sums last [] b t o a c e = (refl, e, refl)
    break_unseen-Sums last (sw ∷ swl) b t (o, os) (a, as') c e =
        elim (Bool-cases (is_switch pid sw)) [
          | inr z ↦
              rw (z, quiet_step N softs good pid last sw z)
                (break_unseen-Sums last swl sw.time t os as' (rw z at c) e)
          | inl z ↦
              let (time, (s, one, start, ends)) = first_step N softs good pid last sw a z in
              let r = switch_step N softs pid sw (unseen last) in
              let more = made N softs pid swl r.0 in
              let put : Weighs comms edge M last sw.time r.0.timestamp 0
                  (put_all N softs pid M r.1 t) =
                rw (time, one) (one_entry last s t sw.time e start a) in
              let nothing : total comms edge r.1 ≡ 0 =
                rw one (omega (arith, no_length comms edge s (omega arith))) in
              let same : 0 + total comms edge more ≡ total comms edge (r.1 ++ more) =
                omega (arith, total-append comms edge r.1 more) in
              rw (z, ← same)
                (break_events-Weighs comms edge M N softs pid 0 swl r.0
                  (put_all N softs pid M r.1 t)
                  (Ordered-le r.0.timestamp sw.time swl (omega (arith, time)) os) as' (rw z at c)
                  put)
        ]

    -- The tail of the tree adds nothing.
    close-total :
        (last : ℕ) (first : Option ℕ) (n : ℕ) (r : PrevState × M.Tree)
        → Sums last first n r
        → (t : M.Tree) × (close_segments N softs pid M last none (unseen last) r.1 ≡ some t)
          × (total comms edge (values (M.entries t)) ≡ n)
    unfolding close_segments
    close-total last none n r (p, e, z) = (
      M.put last (tail pid last) r.1,
      refl,
      ap (λ l. total comms edge (values l))
            (M.entries-put last (tail pid last) r.1 ∙ ap (insert last (tail pid last)) e)
          ∙ omega (arith, no_length comms edge (tail pid last) (omega arith)),
    )
    close-total last (some b) n r c = (
      M.put last (tail pid last) r.1,
      refl,
      ap (λ l. total comms edge (values l))
            (M.entries-put last (tail pid last) r.1
              ∙ ap (insert last (tail pid last)) c.entries
              ∙ replace-last last b c.es r.0.timestamp (tail pid last) c.x c.tiles)
          ∙ ap (total comms edge) (values-append c.es ((last, tail pid last) ∷ []))
          ∙ total-append comms edge (values c.es) (tail pid last ∷ [])
          ∙ omega (arith, c.adds, no_length comms edge (tail pid last) (omega arith)),
    )

    pub break_into_segments-total :
        (s : States) (sw : Switch) (swl : List Switch) (t : M.Tree)
        → let last = last_time sw.time swl in
          get_prev_state s pid ≡ unseen last
          → s.exit_time pid ≡ none
          → Ordered sw.time swl
          → Calm N softs good pid last (sw ∷ swl)
          → M.entries t ≡ []
          → (t' : M.Tree) × (break_into_segments N softs pid M s (sw ∷ swl) t ≡ some t')
            × (total comms edge (values (M.entries t'))
                ≡ total comms edge (made N softs pid (sw ∷ swl) (unseen last)))
    unfolding break_into_segments
    break_into_segments-total s sw swl t start stays o c e =
        let last = last_time sw.time swl in
        let (l, a) = All-last_time sw.time swl o in
        rw (start, stays)
          (close-total last (first_switch pid (sw ∷ swl)) _
            (break_events N softs pid M (sw ∷ swl) (unseen last) t)
            (break_unseen-Sums last (sw ∷ swl) sw.time t (omega arith, o) (l, a) c e))
