-- ===== src/Analyzer/Cascade/Edges.antt =====
-- What `addWeight` makes of the weights of a graph.
use w_perf_archived.Base.{
  same, same_iff, ℕ, ◌==ℤ◌, ◌+◌, ◌-◌, ◌%◌, ◌^◌, ◌≤◌, ◌<◌, ◌≡◌, refl, ap, ◌∙◌, Bool, true, ◌&&◌,
  ◌||◌, not, All, List, [], ◌∷◌, if◌then◌else◌, arith, Bool-cases, inl, inr,
}
use w_perf_archived.Tracer.Text.{Bytes}
use w_perf_archived.Analyzer.States.{Map, or_else, blocked, get_comm}
use w_perf_archived.Analyzer.Segments.{Segment}
use w_perf_archived.Analyzer.Cascade.{WaitForGraph, set_weight, edge, zero_weight, add_weight}

-- The weight of an edge; an edge that the graph does not have weighs nothing.
abbrev pub weight_of : WaitForGraph → Bytes → ℕ
weight_of g k = or_else (g k) 0

-- A segment is a wait on the edge `k`, between programs whose names are known.
abbrev pub is_wait_on : Map Bytes → Bytes → Segment → Bool
is_wait_on comms k w =
    (w.state ==ℤ blocked)
    && (not (same (get_comm comms w.pid) [] || same (get_comm comms w.wait_for) [])
        && same (edge (get_comm comms w.pid) (get_comm comms w.wait_for)) k)

-- The time of a segment on the edge `k`.
abbrev pub time_on : Map Bytes → Bytes → Segment → ℕ
time_on comms k w = if is_wait_on comms k w then w.etime - w.stime else 0

zero_weight-weight_of :
    (g : WaitForGraph) (k j : Bytes) → weight_of (zero_weight g k) j ≡ weight_of g j
zero_weight-weight_of g k j = ground (arith, same_iff k j)

set_weight-weight_of :
    (g : WaitForGraph) (k : Bytes) (n : ℕ) (j : Bytes)
    → weight_of (set_weight g k n) j ≡ (if same k j then n else weight_of g j)
set_weight-weight_of g k n j = ground arith

sum-word :
    (x e s : ℕ)
    → s ≤ e
    → e < 2 ^ 64
    → (x + (e + 2 ^ 64 - s) % 2 ^ 64) % 2 ^ 64 ≡ (x + (e - s)) % 2 ^ 64
sum-word x e s h l = omega arith

-- What one call adds to the weight of each edge.
pub add_weight-weight_of :
    (comms : Map Bytes) (w : Segment) (g : WaitForGraph) (k : Bytes)
    → (w.state ==ℤ blocked) ≡ true
    → w.stime ≤ w.etime
    → w.etime < 2 ^ 64
    → weight_of g k < 2 ^ 64
    → weight_of (add_weight comms w.pid w.wait_for w.etime w.stime g) k
      ≡ (weight_of g k + time_on comms k w) % 2 ^ 64
unfolding add_weight
add_weight-weight_of comms w g k b h l v =
    let wait = get_comm comms w.pid in
    let waker = get_comm comms w.wait_for in
    let key = edge wait waker in
    let z = zero_weight g key in
    elim (Bool-cases (same wait [] || same waker [])) [
      | inl e ↦ rw (e, b) (omega arith)
      | inr e ↦
          rw (e, b)
            (elim (Bool-cases (same key k)) [
              | inl d ↦ rw d (
                  sum-word (weight_of z key) w.etime w.stime h l
                  ∙ ap (λ n. (n + (w.etime - w.stime)) % 2 ^ 64)
                      (zero_weight-weight_of g key key ∙ ap (weight_of g) ((same_iff key k).0 d)))
              | inr d ↦ rw d (zero_weight-weight_of g key k ∙ omega arith)
            ])
    ]

-- What `Cascade` does with a segment when nothing follows from it.
abbrev pub add_wait : Map Bytes → Segment → WaitForGraph → WaitForGraph
add_wait comms w g =
    if w.state ==ℤ blocked then add_weight comms w.pid w.wait_for w.etime w.stime g else g

abbrev pub add_waits : Map Bytes → List Segment → WaitForGraph → WaitForGraph
add_waits comms [] g = g
add_waits comms (w ∷ ws) g = add_waits comms ws (add_wait comms w g)

-- The time of the segments on the edge `k`.
abbrev pub total : Map Bytes → Bytes → List Segment → ℕ
total comms k [] = 0
total comms k (w ∷ ws) = time_on comms k w + total comms k ws

-- A segment does not end before it begins, and its end is a word.
abbrev pub IsSpan : Segment → Type 0
IsSpan w = (w.stime ≤ w.etime) × (w.etime < 2 ^ 64)

add_wait-weight_of :
    (comms : Map Bytes) (w : Segment) (g : WaitForGraph) (k : Bytes)
    → IsSpan w
    → weight_of g k < 2 ^ 64
    → weight_of (add_wait comms w g) k ≡ (weight_of g k + time_on comms k w) % 2 ^ 64
add_wait-weight_of comms w g k (h, l) v = elim (Bool-cases (w.state ==ℤ blocked)) [
  | inl b ↦ rw b (add_weight-weight_of comms w g k b h l v ∙ rw b refl)
  | inr b ↦ rw b (omega arith)
]

pub add_waits-weight_of :
    (comms : Map Bytes) (ws : List Segment) (g : WaitForGraph) (k : Bytes)
    → All IsSpan ws
    → weight_of g k < 2 ^ 64
    → weight_of (add_waits comms ws g) k ≡ (weight_of g k + total comms k ws) % 2 ^ 64
add_waits-weight_of comms [] g k a v = omega arith
add_waits-weight_of comms (w ∷ ws) g k (a, as') v =
    let one = add_wait-weight_of comms w g k a v in
    omega (arith, one, add_waits-weight_of comms ws (add_wait comms w g) k as' (omega (arith, one)))
