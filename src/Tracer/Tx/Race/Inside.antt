-- ===== src/Tracer/Tx/Race/Inside.antt =====
-- No order of the statements of the two writers of `tx_stat` leaves the bitmap.
use w_perf_archived.Base.{
  ℕ, ◌<◌, ◌≡◌, refl, Bool, true, false, Option, none, some, List, [], ◌∷◌, arith, if◌then◌else◌,
  Bool-cases, inl, inr, lt→ltb, All,
}
use w_perf_archived.Tracer.Text.{Bytes}
use w_perf_archived.Tracer.Kernel.{Kernel, Parsed, value, bad, ok}
use w_perf_archived.Tracer.Disk.{is_empty}
use w_perf_archived.Tracer.Tx.{Tx, set_bit, as_int}
use w_perf_archived.Tracer.Tx.Race.{
  AtFilter, AtEnable, Both, Turn, with_filter, then_turn, both_run, both_step, filter_next,
  enable_next, hooks, take_pid, switch_hook,
}

-- A token that is a number stands for a pid of the bitmap.
abbrev pub IsKnown : Kernel → Bytes → Type 0
IsKnown K s = (p : ℕ) → K.kstrtoul s ≡ value p → as_int p < K.pid_max

-- The tokens that are left.
abbrev pub AllKnown : Kernel → AtFilter → Type 0
AllKnown K (AtFilter.disarming hs ts) = All (IsKnown K) ts
AllKnown K (AtFilter.reading ts) = All (IsKnown K) ts
AllKnown K _ = Unit

-- Only pids of the bitmap are watched, and the counters are `stats`.
abbrev pub IsKept : Kernel → (ℕ → ℕ) → Tx → Type 0
IsKept K stats t = ((n : ℕ) → t.filter n ≡ true → n < K.pid_max) × (t.tx_stats ≡ stats)

abbrev pub Inside : Kernel → (ℕ → ℕ) → Both → Type 0
Inside K stats w = AllKnown K w.at_filter × IsKept K stats w.tx

module _ (K : Kernel) (stats : ℕ → ℕ) where
  abbrev InsideStep : Option (AtFilter × Tx) → Type 0
  InsideStep none = ⊥
  InsideStep (some (f, t)) = AllKnown K f × IsKept K stats t

  if-AllKnown :
      (b : Bool) (t : Tx)
      → IsKept K stats t
      → InsideStep (some (if b then AtFilter.arming hooks else AtFilter.returned (ok 0), t))
  if-AllKnown true t k = (tt, k)
  if-AllKnown false t k = (tt, k)

  set_bit-IsKept :
      (p : ℕ) (t : Tx) → p < K.pid_max → IsKept K stats t → IsKept K stats (set_bit p t)
  set_bit-IsKept p t lt (inside, s) = ((λ n e. ground (arith, inside n)), s)

  take_pid-Inside :
      (x : Parsed) (ts : List Bytes) (t : Tx)
      → ((p : ℕ) → x ≡ value p → as_int p < K.pid_max)
      → All (IsKnown K) ts
      → IsKept K stats t
      → InsideStep (take_pid K x ts t)
  take_pid-Inside (bad e) ts t h a k = (tt, k)
  take_pid-Inside (value p) ts t h a k =
      rw (lt→ltb (as_int p) K.pid_max (h p refl)) (a, set_bit-IsKept (as_int p) t (h p refl) k)

  filter_next-Inside :
      (f : AtFilter) (t : Tx) → AllKnown K f → IsKept K stats t → InsideStep (filter_next K f t)
  unfolding filter_next switch_hook
  filter_next-Inside (AtFilter.disarming (h ∷ hs) ts) t a k = (a, k)
  filter_next-Inside (AtFilter.disarming [] ts) t a k = (a, k)
  filter_next-Inside (AtFilter.reading []) t a k = (tt, k)
  filter_next-Inside (AtFilter.reading (s ∷ ss)) t (h, a) k = elim (Bool-cases (is_empty s)) [
    | inl z ↦ rw z (a, k)
    | inr z ↦ rw z (take_pid-Inside (K.kstrtoul s) ss t h a k)
  ]
  filter_next-Inside AtFilter.testing t a k = if-AllKnown t.tx_enabled t k
  filter_next-Inside (AtFilter.arming (h ∷ hs)) t a k = (tt, k)
  filter_next-Inside (AtFilter.arming []) t a k = (tt, k)
  filter_next-Inside AtFilter.erasing t a k = (tt, ((λ n e. cc), k.1))
  filter_next-Inside (AtFilter.returned r) t a k = (tt, k)

  enable_next-IsKept :
      (val : ℕ) (e : AtEnable) (t : Tx) → IsKept K stats t → IsKept K stats (enable_next val e t).1
  unfolding enable_next switch_hook
  enable_next-IsKept val AtEnable.setting t k = k
  enable_next-IsKept val AtEnable.switching t k = k
  enable_next-IsKept val (AtEnable.disarming (h ∷ hs)) t k = k
  enable_next-IsKept val (AtEnable.disarming []) t k = k
  enable_next-IsKept val AtEnable.zeroing t k = ((λ n e. cc), k.1)
  enable_next-IsKept val (AtEnable.arming (h ∷ hs)) t k = k
  enable_next-IsKept val (AtEnable.arming []) t k = k
  enable_next-IsKept val AtEnable.done t k = k

  abbrev InsideAll : Option Both → Type 0
  InsideAll none = ⊥
  InsideAll (some w) = Inside K stats w

  with_filter-Inside :
      (e : AtEnable) (o : Option (AtFilter × Tx)) → InsideStep o → InsideAll (with_filter e o)
  with_filter-Inside e none h = h
  with_filter-Inside e (some (f, t)) h = h

  both_step-Inside :
      (val : ℕ) (s : Turn) (w : Both) → Inside K stats w → InsideAll (both_step K val s w)
  unfolding both_step
  both_step-Inside val Turn.filter w (a, k) =
      with_filter-Inside w.at_enable _ (filter_next-Inside w.at_filter w.tx a k)
  both_step-Inside val Turn.enable w (a, k) = (a, enable_next-IsKept val w.at_enable w.tx k)

  then_turn-Inside :
      (f : Both → Option Both) (o : Option Both)
      → ((w : Both) → Inside K stats w → InsideAll (f w))
      → InsideAll o
      → InsideAll (then_turn f o)
  then_turn-Inside f none g h = h
  then_turn-Inside f (some w) g h = g w h

  steps-Inside :
      (val : ℕ) (ss : List Turn) (w : Both) → Inside K stats w → InsideAll (both_run K val ss w)
  unfolding both_run
  steps-Inside val [] w h = h
  steps-Inside val (s ∷ ss) w h =
      then_turn-Inside (both_run K val ss) (both_step K val s w) (steps-Inside val ss)
        (both_step-Inside val s w h)

  found : (o : Option Both) → InsideAll o → (w : Both) × (o ≡ some w) × Inside K stats w
  found none h = absurd h
  found (some w) h = (w, refl, h)

  -- The two writers, from any place where the tokens that are left have pids of the bitmap as their
  -- low 32 bits as far as they are numbers, and a state that watches only such pids: no order of
  -- their statements writes outside of the bitmap, or watches any other pid, or changes a counter.
  pub both_run-Inside :
      (val : ℕ) (ss : List Turn) (w : Both)
      → Inside K stats w
      → (w' : Both) × (both_run K val ss w ≡ some w') × Inside K stats w'
  both_run-Inside val ss w h = found (both_run K val ss w) (steps-Inside val ss w h)
