-- ===== src/Tracer/Disk/Lookup.antt =====
-- Which slot `dev_idx` finds, and what the probe of `part_round_stats` adds to which counter.
use native.Mathlib.Decide.{ℕ_discrete}
use w_perf_archived.Base.{
  set, ℕ, zero, suc, ◌+◌, ◌-◌, ◌%◌, ◌^◌, ◌<◌, ◌≤◌, ◌≡◌, ◌≢◌, refl, ap, sym, ◌∙◌, true, none, some,
  arith, inl, inr, ◌==◌, if◌then◌else◌, Bool-cases, get_or-set_self, get_or-set_ne,
}
use w_perf_archived.Tracer.Text.{Bytes, cstr, strncmp_eq, IsText}
use w_perf_archived.Tracer.Text.Laws.{strncmp_eq_iff}
use w_perf_archived.Tracer.Kernel.{Kernel}
use w_perf_archived.Tracer.Disk.{
  Disk, Part, max_dname_size, dname, dutil, dev_idx, dev_idx_from, credit, on_part_round_stats_ent,
}
use w_perf_archived.Tracer.Disk.Valid.{Valid}

-- Slot `i` is the first in use with that name.
pub record First (d : Disk) (name : Bytes) (i : ℕ) : Type 0 where
  pub used : i < d.didx
  pub same : name ≡ cstr (dname d i)
  pub before : (j : ℕ) → j < i → name ≢ cstr (dname d j)

module _ {d : Disk} (v : Valid d) (name : Bytes) (text : IsText name) where
  matches :
      (i : ℕ)
      → i < d.didx
      → (strncmp_eq max_dname_size name (dname d i) ≡ true)
      → name ≡ cstr (dname d i)
  matches i h = (strncmp_eq_iff max_dname_size name (dname d i) text (v.named i h).1).0

  matched :
      (i : ℕ)
      → i < d.didx
      → name ≡ cstr (dname d i)
      → strncmp_eq max_dname_size name (dname d i) ≡ true
  matched i h = (strncmp_eq_iff max_dname_size name (dname d i) text (v.named i h).1).1

  dev_idx_from-First :
      (i n k : ℕ)
      → i + n ≡ d.didx
      → i ≤ k
      → First d name k
      → dev_idx_from d.dnames name i n ≡ some k
  unfolding dev_idx_from
  dev_idx_from-First i zero k e lo f = absurd (omega (arith, f.used))
  dev_idx_from-First i (suc n) k e lo f = elim (ℕ_discrete i k) [
    | yes at ↦
        rw (matched i (omega (arith, f.used)) (f.same ∙ ap (λ j. cstr (dname d j)) (sym at)))
          (ap some at)
    | no ne ↦ elim (Bool-cases (strncmp_eq max_dname_size name (dname d i))) [
      | inl m ↦ absurd (f.before i (omega arith) (matches i (omega arith) m))
      | inr m ↦ rw m (dev_idx_from-First (i + 1) n k (omega arith) (omega arith) f)
    ]
  ]

  dev_idx_from-none :
      (i n : ℕ)
      → i + n ≡ d.didx
      → ((j : ℕ) → j < d.didx → name ≢ cstr (dname d j))
      → dev_idx_from d.dnames name i n ≡ none
  unfolding dev_idx_from
  dev_idx_from-none i zero e other = refl
  dev_idx_from-none i (suc n) e other =
      elim (Bool-cases (strncmp_eq max_dname_size name (dname d i))) [
        | inl m ↦ absurd (other i (omega arith) (matches i (omega arith) m))
        | inr m ↦ rw m (dev_idx_from-none (i + 1) n (omega arith) other)
      ]

  -- The first slot with the name is found.
  pub dev_idx-First : (k : ℕ) → First d name k → dev_idx name d ≡ some k
  unfolding dev_idx
  dev_idx-First k f = dev_idx_from-First 0 d.didx k (omega arith) (omega arith) f

  pub dev_idx-none : ((j : ℕ) → j < d.didx → name ≢ cstr (dname d j)) → dev_idx name d ≡ none
  unfolding dev_idx
  dev_idx-none other = dev_idx_from-none 0 d.didx (omega arith) other

-- The partition whose queue is charged: the whole disk, for a partition of it.
abbrev pub charged : Part → Part → Part
charged part part0 = if part.partno == 0 then part else part0

credit-charge :
    (K : Kernel) (now : ℕ) (p : Part) (d : Disk) (i : ℕ)
    → K.time_after now p.stamp ≡ true
    → p.in_flight ≢ 0
    → credit K now p d (some i) ≡ record d {
      dutils = set d.dutils i ((dutil d i + (now + 2 ^ 64 - p.stamp) % 2 ^ 64) % 2 ^ 64);
    }
unfolding credit
credit-charge K now p d i after busy = ground arith

-- From a valid state, with a name without NUL, requests in flight and a time after `stamp`: the
-- time from `stamp` to now is added to the counter of the first slot that names the disk, as
-- unsigned longs, and all else stays.
pub on_part_round_stats_ent-charge :
    (K : Kernel) (now : ℕ) (part part0 : Part) (d : Disk) (i : ℕ)
    → Valid d
    → let p = charged part part0 in
      IsText p.dev_name
      → First d p.dev_name i
      → K.time_after now p.stamp ≡ true
      → p.in_flight ≢ 0
      → let d' = on_part_round_stats_ent K now part part0 d in
        (dutil d' i ≡ (dutil d i + (now + 2 ^ 64 - p.stamp) % 2 ^ 64) % 2 ^ 64)
        × ((j : ℕ) → j ≢ i → dutil d' j ≡ dutil d j)
        × (d' ≡ record d { dutils = d'.dutils })
unfolding on_part_round_stats_ent
on_part_round_stats_ent-charge K now part part0 d i v text f after busy =
    rw (dev_idx-First v _ text i f, credit-charge K now (charged part part0) d i after busy)
      (
        get_or-set_self d.dutils i _ 0 (omega (arith, f.used, v.few, v.counters)),
        λ j ne. get_or-set_ne d.dutils i j _ 0 (λ e. ne (sym e)),
        refl,
      )

-- A disk that no slot names is not counted.
pub on_part_round_stats_ent-unwatched :
    (K : Kernel) (now : ℕ) (part part0 : Part) (d : Disk)
    → Valid d
    → IsText (charged part part0).dev_name
    → ((j : ℕ) → j < d.didx → (charged part part0).dev_name ≢ cstr (dname d j))
    → on_part_round_stats_ent K now part part0 d ≡ d
unfolding on_part_round_stats_ent
on_part_round_stats_ent-unwatched K now part part0 d v text other = rw (dev_idx-none v _ text other)
