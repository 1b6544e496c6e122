-- ===== src/Tracer/Tx/Race/Enabled.antt =====
-- A write to `filter` and one that enables `tx_stat`, at the same time.
use mathlib.Core.Path.{subst}
use w_perf_archived.Base.{
  ℕ, ◌%◌, ◌≡◌, ◌≢◌, refl, ap, true, false, not, Option, none, some, List, [], ◌∷◌, ltb, ◌==◌, arith,
  Bool-cases, inl, inr,
}
use w_perf_archived.Tracer.Text.{Bytes}
use w_perf_archived.Tracer.Kernel.{Kernel, Parsed, value, bad, ok, fail}
use w_perf_archived.Tracer.Disk.{is_empty}
use w_perf_archived.Tracer.Tx.{as_int, Tx, Probes}
use w_perf_archived.Tracer.Tx.Count.{Hook}
use w_perf_archived.Tracer.Tx.Filter.{all_probes}
use w_perf_archived.Tracer.Tx.Race.{
  AtFilter, AtEnable, Both, Turn, both, with_filter, then_turn, both_run, both_step, filter_next,
  enable_next, hooks, take_pid, switch_probe, switch_hook,
}
use w_perf_archived.Tracer.Tx.Race.Covers.{
  IsEnabling, WillCover, FilterCovers, Safe, switch_probe-CoveredBy, WillCover-all, WillCover-unset,
}

module _ (K : Kernel) (e : AtEnable) where
  abbrev SafeStep : Option (AtFilter × Tx) → Type 0
  SafeStep none = Unit
  SafeStep (some (f, t)) = Safe f e t

  take_pid-Safe :
      (x : Parsed) (ts : List Bytes) (t : Tx)
      → IsEnabling e t.tx_enabled
      → SafeStep (take_pid K x ts t)
  take_pid-Safe (bad r) ts t i = (i, tt)
  take_pid-Safe (value p) ts t i = elim (Bool-cases (ltb (as_int p) K.pid_max)) [
    | inl z ↦ rw z (i, tt)
    | inr z ↦ rw z tt
  ]

  filter_next-Safe : (f : AtFilter) (t : Tx) → Safe f e t → SafeStep (filter_next K f t)
  unfolding filter_next switch_hook
  filter_next-Safe (AtFilter.disarming (h ∷ hs) ts) t (i, c) = (i, tt)
  filter_next-Safe (AtFilter.disarming [] ts) t (i, c) = (i, tt)
  filter_next-Safe (AtFilter.reading []) t (i, c) = (i, tt)
  filter_next-Safe (AtFilter.reading (s ∷ ss)) t (i, c) = elim (Bool-cases (is_empty s)) [
    | inl z ↦ rw z (i, tt)
    | inr z ↦ rw z (take_pid-Safe (K.kstrtoul s) ss t i)
  ]
  filter_next-Safe AtFilter.testing t (i, c) = elim (Bool-cases t.tx_enabled) [
    | inl z ↦ rw z (rw (← z) i, refl)
    | inr z ↦ rw z (rw (← z) i, WillCover-unset e t.tx_enabled t.probes z i)
  ]
  filter_next-Safe (AtFilter.arming (h ∷ hs)) t (i, c) = (i, c)
  filter_next-Safe (AtFilter.arming []) t (i, c) = (i, WillCover-all e t.probes c)
  filter_next-Safe AtFilter.erasing t (i, c) = (i, tt)
  filter_next-Safe (AtFilter.returned r) t (i, c) = (i, c)

-- The other writer keeps what the writer to `filter` is about to do.
FilterCovers-arm :
    (f : AtFilter) (h : Hook) (hs : List Hook) (p : Probes)
    → FilterCovers f (AtEnable.arming (h ∷ hs)) p
    → FilterCovers f (AtEnable.arming hs) (switch_probe h true p)
FilterCovers-arm (AtFilter.arming ks) h hs p c = switch_probe-CoveredBy h ks p c
FilterCovers-arm (AtFilter.returned (ok n)) h hs p c = c
FilterCovers-arm (AtFilter.returned (fail r)) h hs p c = tt
FilterCovers-arm (AtFilter.disarming ks ts) h hs p c = tt
FilterCovers-arm (AtFilter.reading ts) h hs p c = tt
FilterCovers-arm AtFilter.testing h hs p c = tt
FilterCovers-arm AtFilter.erasing h hs p c = tt

-- A move that switches no probe.
FilterCovers-move :
    (f : AtFilter) (e e' : AtEnable) (p : Probes)
    → (WillCover e p → WillCover e' p)
    → FilterCovers f e p
    → FilterCovers f e' p
FilterCovers-move (AtFilter.arming ks) e e' p g c = c
FilterCovers-move (AtFilter.returned (ok n)) e e' p g c = g c
FilterCovers-move (AtFilter.returned (fail r)) e e' p g c = tt
FilterCovers-move (AtFilter.disarming ks ts) e e' p g c = tt
FilterCovers-move (AtFilter.reading ts) e e' p g c = tt
FilterCovers-move AtFilter.testing e e' p g c = tt
FilterCovers-move AtFilter.erasing e e' p g c = tt

enable_next-Safe :
    (val : ℕ) (f : AtFilter) (e : AtEnable) (t : Tx)
    → (val % 256 == 0) ≡ false
    → Safe f e t
    → Safe f (enable_next val e t).0 (enable_next val e t).1
unfolding enable_next switch_hook
enable_next-Safe val f AtEnable.setting t on (i, c) =
    (ap not on, FilterCovers-move f AtEnable.setting AtEnable.switching t.probes (λ _. tt) c)
enable_next-Safe val f AtEnable.switching t on (i, c) =
    rw i
      (refl, FilterCovers-move f AtEnable.switching (AtEnable.arming hooks) t.probes (λ _. refl) c)
enable_next-Safe val f (AtEnable.arming (h ∷ hs)) t on (i, c) =
    (i, FilterCovers-arm f h hs t.probes c)
enable_next-Safe val f (AtEnable.arming []) t on (i, c) =
    (i, FilterCovers-move f (AtEnable.arming []) AtEnable.done t.probes (λ q. q) c)
enable_next-Safe val f AtEnable.done t on (i, c) = (i, c)
enable_next-Safe val f AtEnable.zeroing t on (i, c) = absurd i
enable_next-Safe val f (AtEnable.disarming hs) t on (i, c) = absurd i

abbrev SafeAll : Option Both → Type 0
SafeAll none = Unit
SafeAll (some w) = Safe w.at_filter w.at_enable w.tx

with_filter-Safe :
    (K : Kernel) (e : AtEnable) (o : Option (AtFilter × Tx))
    → SafeStep K e o
    → SafeAll (with_filter e o)
with_filter-Safe K e none h = h
with_filter-Safe K e (some (f, t)) h = h

module _ (K : Kernel) (val : ℕ) (on : (val % 256 == 0) ≡ false) where
  both_step-Safe : (s : Turn) (w : Both) → SafeAll (some w) → SafeAll (both_step K val s w)
  unfolding both_step
  both_step-Safe Turn.filter w h =
      with_filter-Safe K w.at_enable _ (filter_next-Safe K w.at_enable w.at_filter w.tx h)
  both_step-Safe Turn.enable w h = enable_next-Safe val w.at_filter w.at_enable w.tx on h

  then_turn-Safe :
      (f : Both → Option Both) (o : Option Both)
      → ((w : Both) → SafeAll (some w) → SafeAll (f w))
      → SafeAll o
      → SafeAll (then_turn f o)
  then_turn-Safe f none g h = h
  then_turn-Safe f (some w) g h = g w h

  both_run-Safe : (ss : List Turn) (w : Both) → SafeAll (some w) → SafeAll (both_run K val ss w)
  unfolding both_run
  both_run-Safe [] w h = h
  both_run-Safe (s ∷ ss) w h =
      then_turn-Safe (both_run K val ss) (both_step K val s w) (both_run-Safe ss)
        (both_step-Safe s w h)

-- A write to `filter` of `tx_stat` and one that enables the event, at the same time, each from the
-- start of its statements: whatever the order of their statements and the tokens, if the write to
-- `filter` has returned with success and the other has returned, then the event is enabled and all
-- five probes are on.
pub both_run-enabled :
    (K : Kernel) (val : ℕ) (ss : List Turn) (ts : List Bytes) (t u : Tx) (n : ℕ)
    → val % 256 ≢ 0
    → both_run K val ss (both (AtFilter.disarming hooks ts) AtEnable.setting t)
      ≡ some (both (AtFilter.returned (ok n)) AtEnable.done u)
    → (u.tx_enabled ≡ true) × (u.probes ≡ all_probes true)
both_run-enabled K val ss ts t u n on e = subst SafeAll e (
    both_run-Safe K val (ground (arith, on)) ss
      (both (AtFilter.disarming hooks ts) AtEnable.setting t) (tt, tt))
