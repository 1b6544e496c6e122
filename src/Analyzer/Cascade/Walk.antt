-- ===== src/Analyzer/Cascade/Walk.antt =====
-- The walk of `findAllWaitingSegments` over the segments of the waker, and what `Cascade` does.
use w_perf_archived.Base.{
  ℕ, zero, suc, ◌==ℤ◌, ◌+◌, ◌%◌, ◌^◌, ◌≤◌, ◌<◌, ◌≡◌, refl, sym, ap, ◌∙◌, true, Option, none, some,
  List, [], ◌∷◌, ◌++◌, append_assoc, length, length-append, if◌then◌else◌, leb, arith, Bool-cases,
  Option-cases, le→leb, inl, inr,
}
use w_perf_archived.Analyzer.Treemap.{Treemap, floor_in, ceiling_in, or_last}
use w_perf_archived.Analyzer.Treemap.Laws.{Above, Rising}
use w_perf_archived.Analyzer.States.{Map, blocked}
use w_perf_archived.Tracer.Text.{Bytes}
use w_perf_archived.Analyzer.Segments.{Segment}
use w_perf_archived.Analyzer.Cascade.{
  WaitForGraph, returns, SegmentMap, collect, waiting_loop, forget, waiting_from, waiting_of,
  find_all_waiting_segments, cascade,
}
use w_perf_archived.Analyzer.Cascade.Edges.{add_wait}

-- Each segment stands under its start, and a start has a successor among the words.
abbrev pub Keyed : List (ℕ × Segment) → Type 0
Keyed [] = Unit
Keyed ((k, v) ∷ es) = (v.stime ≡ k) × (k + 1 < 2 ^ 64) × Keyed es

-- The last segment, `v` where no other is, ends at `e` or later.
abbrev pub Reaches : ℕ → Segment → List (ℕ × Segment) → Type 0
Reaches e v [] = e ≤ v.etime
Reaches e v ((k, w) ∷ es) = Reaches e w es

abbrev pub head_of : {V : Type 0} → List (ℕ × V) → Option (ℕ × V)
head_of [] = none
head_of (e ∷ es) = some e

abbrev pub ReachesAll : ℕ → List (ℕ × Segment) → Type 0
ReachesAll e [] = Unit
ReachesAll e ((k, v) ∷ es) = Reaches e v es

Keyed-tail : (pre es : List (ℕ × Segment)) → Keyed (pre ++ es) → Keyed es
Keyed-tail [] es h = h
Keyed-tail ((k, v) ∷ pre) es (p, q, h) = Keyed-tail pre es h

Reaches-middle :
    (e : ℕ) (u : Segment) (pre : List (ℕ × Segment)) (k : ℕ) (v : Segment)
    (rest : List (ℕ × Segment))
    → Reaches e u (pre ++ (k, v) ∷ rest)
    → Reaches e v rest
Reaches-middle e u [] k v rest h = h
Reaches-middle e u ((j, w) ∷ pre) k v rest h = Reaches-middle e w pre k v rest h

Reaches-tail :
    (e : ℕ) (pre : List (ℕ × Segment)) (k : ℕ) (v : Segment) (rest : List (ℕ × Segment))
    → ReachesAll e (pre ++ (k, v) ∷ rest)
    → Reaches e v rest
Reaches-tail e [] k v rest h = h
Reaches-tail e ((j, w) ∷ pre) k v rest h = Reaches-middle e w pre k v rest h

module _ {V : Type 0} where
  ceiling_in-Above : (k : ℕ) (es : List (ℕ × V)) → Above k es → ceiling_in (k + 1) es ≡ head_of es
  ceiling_in-Above k [] a = refl
  ceiling_in-Above k ((j, v) ∷ es) (l, a) = ground arith

  Above-le : (b c : ℕ) (es : List (ℕ × V)) → b ≤ c → Above c es → Above b es
  Above-le b c [] h a = tt
  Above-le b c ((j, v) ∷ es) h (l, a) = (omega arith, a)

  Above-Rising : (b : ℕ) (es : List (ℕ × V)) → Above b es → Rising es
  Above-Rising b [] a = tt
  Above-Rising b ((j, v) ∷ es) (l, a) = a

  Above-middle :
      (b : ℕ) (pre : List (ℕ × V)) (k : ℕ) (v : V) (rest : List (ℕ × V))
      → Above b (pre ++ (k, v) ∷ rest)
      → b < k
  Above-middle b [] k v rest (l, a) = l
  Above-middle b ((j, w) ∷ pre) k v rest (l, a) = omega (arith, Above-middle j pre k v rest a)

  -- The entry after that of `k`.
  pub ceiling_in-next :
      (pre : List (ℕ × V)) (k : ℕ) (v : V) (rest : List (ℕ × V))
      → Rising (pre ++ (k, v) ∷ rest)
      → ceiling_in (k + 1) (pre ++ (k, v) ∷ rest) ≡ head_of rest
  ceiling_in-next [] k v rest a = ground (arith, ceiling_in-Above k rest a)
  ceiling_in-next ((j, w) ∷ pre) k v rest a =
      ground
        (arith, ceiling_in-next pre k v rest (Above-Rising j _ a), Above-middle j pre k v rest a)

  -- Where an entry stands.
  pub record Split (e : ℕ × V) (es : List (ℕ × V)) : Type 0 where
    pub before : List (ℕ × V)
    pub rest : List (ℕ × V)
    pub whole : es ≡ before ++ e ∷ rest

  floor_in-none :
      (n j : ℕ) (w : V) (e : ℕ × V) → (if leb j n then some (j, w) else none) ≡ some e → (j, w) ≡ e
  floor_in-none n j w e h = ground arith

  floor_in-some :
      (n j : ℕ) (w : V) (d e : ℕ × V)
      → (if leb j n then or_last (some d) (j, w) else none) ≡ some e
      → d ≡ e
  floor_in-some n j w d e h = ground arith

  pub floor_in-Split : (n : ℕ) (es : List (ℕ × V)) (e : ℕ × V) → floor_in n es ≡ some e → Split e es
  floor_in-Split n [] e h = absurd (cc h)
  floor_in-Split n ((j, w) ∷ es) e h = elim (Option-cases (floor_in n es)) [
    | inl z ↦ record {
      before = [];
      rest = es;
      whole = ap (λ x. x ∷ es) (floor_in-none n j w e (rw z at h));
    }
    | inr (d, z) ↦
        let deep = floor_in-Split n es d z in
        record {
          before = (j, w) ∷ deep.before;
          rest = deep.rest;
          whole =
              ap (λ l. (j, w) ∷ l)
                (deep.whole
                  ∙ ap (λ x. deep.before ++ x ∷ deep.rest) (floor_in-some n j w d e (rw z at h)));
        }
  ]

module _ (M : Treemap Segment) where
  next-head_of :
      (t : M.Tree) (pre : List (ℕ × Segment)) (k : ℕ) (seg : Segment) (rest : List (ℕ × Segment))
      → M.entries t ≡ pre ++ (k, seg) ∷ rest
      → Rising (pre ++ (k, seg) ∷ rest)
      → seg.stime ≡ k
      → k + 1 < 2 ^ 64
      → M.ceiling ((seg.stime + 1) % 2 ^ 64) t ≡ head_of rest
  next-head_of t pre k seg rest e r h l =
      let n : (seg.stime + 1) % 2 ^ 64 ≡ k + 1 = omega arith in
      ap (λ n. M.ceiling n t) n
      ∙ M.ceiling-entries (k + 1) t
      ∙ ap (ceiling_in (k + 1)) e
      ∙ ceiling_in-next pre k seg rest r

  -- The walk from an entry comes to an end in as many rounds as there are entries from there on.
  waiting_loop-returns :
      (t : M.Tree) (pre : List (ℕ × Segment)) (k : ℕ) (seg : Segment) (rest : List (ℕ × Segment))
      → (fuel etime : ℕ) (segs : List Segment) → M.entries t ≡ pre ++ (k, seg) ∷ rest
      → Rising (pre ++ (k, seg) ∷ rest)
      → Keyed ((k, seg) ∷ rest)
      → Reaches etime seg rest
      → length rest < fuel
      → (l : List Segment) × (waiting_loop M fuel t seg etime segs ≡ returns l)
  unfolding waiting_loop
  waiting_loop-returns t pre k seg rest zero etime segs e r y h l = absurd (omega arith)
  waiting_loop-returns t pre k seg [] (suc fuel) etime segs e r y h l =
      (collect M seg segs, rw (le→leb etime seg.etime h) refl)
  waiting_loop-returns t pre k seg ((j, w) ∷ rest) (suc fuel) etime segs e r (p, q, y) h l =
      let segs' = collect M seg segs in
      let next = next-head_of t pre k seg ((j, w) ∷ rest) e r p q in
      let shift = append_assoc pre ((k, seg) ∷ []) ((j, w) ∷ rest) in
      elim (Bool-cases (leb etime seg.etime)) [
        | inl z ↦ (segs', rw z refl)
        | inr z ↦ elim (Bool-cases (leb etime w.stime)) [
          | inl z' ↦ (segs', rw (z, next, z') refl)
          | inr z' ↦
              let (found, ends) =
                waiting_loop-returns t (pre ++ (k, seg) ∷ []) j w rest fuel etime segs'
                  (e ∙ sym shift) (rw shift r) y h (omega (arith, l)) in
              (found, rw (z, next, z') ends)
        ]
      ]

  -- The segments of a process that a walk up to `etime` is safe on.
  pub record IsWalkable (etime : ℕ) (t : M.Tree) : Type 0 where
    pub rising : Rising (M.entries t)
    pub keyed : Keyed (M.entries t)
    pub reaches : ReachesAll etime (M.entries t)

  waiting_from-returns :
      (t : M.Tree) (o : Option (ℕ × Segment)) (fuel etime stime : ℕ)
      → IsWalkable etime t
      → length (M.entries t) ≤ fuel
      → M.floor stime t ≡ o
      → waiting_from M fuel t o etime ≡ returns []
  waiting_from-returns t none fuel etime stime s l h = refl
  waiting_from-returns t (some (k, seg)) fuel etime stime s l h =
      let at = floor_in-Split stime (M.entries t) (k, seg) (sym (M.floor-entries stime t) ∙ h) in
      let (found, ends) =
        waiting_loop-returns t at.before k seg at.rest fuel etime [] at.whole
          (rw at.whole at s.rising) (Keyed-tail at.before _ (rw at.whole at s.keyed))
          (Reaches-tail etime at.before k seg at.rest (rw at.whole at s.reaches))
          (omega (arith, l, ap length at.whole, length-append at.before ((k, seg) ∷ at.rest))) in
      ap (forget M) ends

  -- The waker of a segment has no segments, or ones that the walk is safe on with so much fuel.
  abbrev pub IsReady : ℕ → ℕ → Option M.Tree → Type 0
  IsReady fuel etime none = Unit
  IsReady fuel etime (some t) = IsWalkable etime t × (length (M.entries t) ≤ fuel)

  waiting_of-returns :
      (fuel etime stime : ℕ) (o : Option M.Tree)
      → IsReady fuel etime o
      → waiting_of M fuel o etime stime ≡ returns []
  waiting_of-returns fuel etime stime none r = refl
  waiting_of-returns fuel etime stime (some t) (s, l) =
      waiting_from-returns t (M.floor stime t) fuel etime stime s l refl

  -- `Cascade` of a segment, with a depth of one call at least: if it is not blocked, nothing
  -- changes; if it is, and its waker has no segments or has segments under their starts, rising and
  -- with a successor below 2^64, of which the last ends no sooner than this one, at most as many as
  -- there are rounds, then the walk over them ends without a panic, and the graph has just the
  -- weight of this one wait more: no wait of the waker is followed.
  pub cascade-add_wait :
      (depth fuel : ℕ) (comms : Map Bytes) (segs : SegmentMap M) (w : Segment) (g : WaitForGraph)
      → ((w.state ==ℤ blocked) ≡ true → IsReady fuel w.etime (segs w.wait_for))
      → cascade M (suc depth) fuel comms segs w g ≡ returns (add_wait comms w g)
  unfolding cascade find_all_waiting_segments
  cascade-add_wait depth fuel comms segs w g ready = elim (Bool-cases (w.state ==ℤ blocked)) [
    | inl b ↦ rw (b, waiting_of-returns fuel w.etime w.stime (segs w.wait_for) (ready b)) refl
    | inr b ↦ rw b refl
  ]
