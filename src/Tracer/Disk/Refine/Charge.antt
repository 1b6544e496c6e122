-- ===== src/Tracer/Disk/Refine/Charge.antt =====
-- The probe on `part_round_stats` does what the specification says.
use w_perf_archived.Base.{
  ℕ, zero, suc, ◌+◌, ◌-◌, ◌%◌, ◌^◌, ◌<◌, ◌≡◌, ◌≢◌, refl, sym, ap, ◌∙◌, Bool, true, false, not, ◌&&◌,
  Option, none, some, List, [], ◌∷◌, ◌++◌, ◌==◌, if◌then◌else◌, length, get_or, set, same, same_iff,
  arith, Bool-cases, inl, inr,
}
use native.Mathlib.Decide.{dec_lt}
use w_perf_archived.Tracer.Text.{Bytes, cstr, IsText}
use w_perf_archived.Tracer.Kernel.{Kernel}
use w_perf_archived.Tracer.Disk.{Disk, Part, dname, dutil, dev_idx, credit, on_part_round_stats_ent}
use w_perf_archived.Tracer.Disk.Valid.{Valid}
use w_perf_archived.Tracer.Disk.Names.{names, names_to, length-names_to}
use w_perf_archived.Tracer.Disk.Lookup.{dev_idx-First, dev_idx-none}
use w_perf_archived.Tracer.Disk.Calls.{round_stats}
use w_perf_archived.Tracer.Disk.Spec.{Watch, nothing, place, next_place, charge_spec, call_spec}
use w_perf_archived.Tracer.Disk.Refine.{watch_of, answer, watched}
use w_perf_archived.Tracer.Disk.Refine.Filter.{names_to-dnames, watch-path}

-- What `place` finds.
abbrev Placed : Bytes → List Bytes → Option ℕ → Type 0
Placed name ns none = (j : ℕ) → j < length ns → name ≢ get_or ns j []
Placed name ns (some i) =
    (i < length ns) × (name ≡ get_or ns i []) × ((j : ℕ) → j < i → name ≢ get_or ns j [])

Placed-before :
    (name n : Bytes) (ns : List Bytes) (i : ℕ)
    → name ≢ n
    → ((j : ℕ) → j < i → name ≢ get_or ns j [])
    → (j : ℕ) → j < suc i
    → name ≢ get_or (n ∷ ns) j []
Placed-before name n ns i ne before zero h = ne
Placed-before name n ns i ne before (suc j) h = before j (omega arith)

Placed-next :
    (name n : Bytes) (ns : List Bytes) (o : Option ℕ)
    → name ≢ n
    → Placed name ns o
    → Placed name (n ∷ ns) (next_place o)
Placed-next name n ns none ne p = Placed-before name n ns (length ns) ne p
Placed-next name n ns (some i) ne (lt, e, before) =
    (omega arith, e, Placed-before name n ns i ne before)

place-Placed : (name : Bytes) (ns : List Bytes) → Placed name ns (place name ns)
place-Placed name [] = λ j h. absurd (omega arith)
place-Placed name (n ∷ ns) = elim (Bool-cases (same name n)) [
  | inl z ↦ rw z (omega arith, (same_iff name n).0 z, λ j h. absurd (omega arith))
  | inr z ↦ rw z (
      Placed-next name n ns (place name ns) (λ e. cc (z, (same_iff name n).1 e))
        (place-Placed name ns))
]

get_or-middle :
    (xs : List Bytes) (y : Bytes) (i : ℕ)
    → (i < length xs → get_or (xs ++ y ∷ []) i [] ≡ get_or xs i [])
      × (i ≡ length xs → get_or (xs ++ y ∷ []) i [] ≡ y)
get_or-middle [] y zero = ((λ h. absurd (omega arith)), λ e. refl)
get_or-middle [] y (suc i) = ((λ h. absurd (omega arith)), λ e. absurd (omega arith))
get_or-middle (x ∷ xs) y zero = ((λ h. refl), λ e. absurd (omega arith))
get_or-middle (x ∷ xs) y (suc i) =
    let (a, b) = get_or-middle xs y i in ((λ h. a (omega arith)), λ e. b (omega arith))

get_or-names_to : (d : Disk) (n i : ℕ) → i < n → get_or (names_to d n) i [] ≡ cstr (dname d i)
unfolding names_to
get_or-names_to d zero i h = absurd (omega arith)
get_or-names_to d (suc n) i h =
    let (a, b) = get_or-middle (names_to d n) (cstr (dname d n)) i in
    let len = length-names_to d n in
    elim (dec_lt i n) [
      | yes lt ↦ a (omega (arith, len)) ∙ get_or-names_to d n i lt
      | no ge ↦
          let last : i ≡ n = omega (arith, h) in
          b (omega (arith, len)) ∙ ap (λ j. cstr (dname d j)) (sym last)
    ]

dev_idx-Placed :
    (d : Disk) (v : Valid d) (name : Bytes) (o : Option ℕ)
    → IsText name
    → Placed name (names d) o
    → dev_idx name d ≡ o
unfolding names
dev_idx-Placed d v name none text p =
    let len = length-names_to d d.didx in
    dev_idx-none v name text
      (λ j h e. p j (omega (arith, len)) (e ∙ sym (get_or-names_to d d.didx j h)))
dev_idx-Placed d v name (some i) text (lt, e, before) =
    let len = length-names_to d d.didx in
    let used : i < d.didx = omega (arith, len, lt) in
    dev_idx-First v name text i (record {
      used = used;
      same = e ∙ get_or-names_to d d.didx i used;
      before = λ j h q. before j h (q ∙ sym (get_or-names_to d d.didx j (omega (arith, used))));
    })

same_if : (c : Bool) (w : Watch) → w ≡ (if c then w else w)
same_if true w = refl
same_if false w = refl

watch_of-if :
    (c : Bool) (d e : Disk) (x : Watch)
    → watch_of e ≡ x
    → watch_of (if c then e else d) ≡ (if c then x else watch_of d)
watch_of-if true d e x h = h
watch_of-if false d e x h = refl

credit-watched :
    (K : Kernel) (now : ℕ) (p : Part) (d : Disk) (o : Option ℕ)
    → watch_of (credit K now p d o) ≡ (
        if K.time_after now p.stamp && not (p.in_flight == 0)
        then charge_spec ((now + 2 ^ 64 - p.stamp) % 2 ^ 64) o (watch_of d)
        else watch_of d)
unfolding credit names
credit-watched K now p d none =
    same_if (K.time_after now p.stamp && not (p.in_flight == 0)) (watch_of d)
credit-watched K now p d (some i) =
    let counts = set d.dutils i ((dutil d i + (now + 2 ^ 64 - p.stamp) % 2 ^ 64) % 2 ^ 64) in
    watch_of-if (K.time_after now p.stamp && not (p.in_flight == 0)) d
      (record d { dutils = counts }) _
      (watch-path d.armed (names_to-dnames (record d { dutils = counts }) d refl d.didx) refl refl)

watched-if :
    (b c : Bool) (d e : Disk) (x : Watch)
    → watch_of e ≡ (if c then x else watch_of d)
    → watched (some (nothing, if b then e else d))
      ≡ (if b && c then some (nothing, x) else some (nothing, watch_of d))
watched-if true true d e x h = ap (λ w. some (nothing, w)) h
watched-if true false d e x h = ap (λ w. some (nothing, w)) h
watched-if false c d e x h = refl

-- The disk that the probe is about.
abbrev pub part_of : Part → Part → Part
part_of part part0 = if part.partno == 0 then part else part0

pub round_stats-watched :
    (K : Kernel) (now : ℕ) (part part0 : Part) (d : Disk)
    → IsText (part_of part part0).dev_name
    → Valid d
    → watched (answer K (round_stats now part part0) d)
      ≡ call_spec K (round_stats now part part0) (watch_of d)
unfolding answer on_part_round_stats_ent
round_stats-watched K now part part0 d text v =
    let p = part_of part part0 in
    let found =
      dev_idx-Placed d v p.dev_name (place p.dev_name (names d)) text
        (place-Placed p.dev_name (names d)) in
    watched-if d.armed (K.time_after now p.stamp && not (p.in_flight == 0)) d
      (credit K now p d (dev_idx p.dev_name d)) _
      (ap (λ o. watch_of (credit K now p d o)) found
        ∙ credit-watched K now p d (place p.dev_name (names d)))
