-- ===== src/Tracer/Tx/Race/Alone.antt =====
-- Each writer of `tx_stat` alone does what its handler does.
use w_perf_archived.Base.{
  ℕ, zero, suc, ◌%◌, ◌≡◌, refl, Bool, true, false, Option, none, some, List, [], ◌∷◌, ltb, ◌==◌,
  if◌then◌else◌, length, replicate, Bool-cases, inl, inr,
}
use w_perf_archived.Tracer.Text.{Bytes}
use w_perf_archived.Tracer.Kernel.{Kernel, Parsed-cases, Ret, ok, fail, einval}
use w_perf_archived.Tracer.Disk.{is_empty}
use w_perf_archived.Tracer.Tx.{
  as_int, Tx, set_bit, add_pid, add_pids, filter_done, switch_on, switch_off, enable_tx_stat_probes,
  disable_tx_stat_probes, tx_stats_enable_write,
}
use w_perf_archived.Tracer.Tx.Race.{
  AtFilter, AtEnable, Both, Turn, both, both_run, filter_next, enable_next, hooks,
}

-- A result of the handler, where the writer has returned.
abbrev pub after_filter : AtEnable → Option (Ret × Tx) → Option Both
after_filter e none = none
after_filter e (some (r, t)) = some (both (AtFilter.returned r) e t)

-- `n` statements of one writer.
abbrev pub only : Turn → ℕ → List Turn
only s n = replicate n s

-- One statement for each token, and the eight behind the loop; and the six in front of it as well.
abbrev behind_token : List Bytes → ℕ
behind_token ts = suc (suc (suc (suc (suc (suc (suc (length ts)))))))

abbrev loop_length : List Bytes → ℕ
loop_length ts = suc (behind_token ts)

abbrev pub filter_length : List Bytes → ℕ
filter_length ts = suc (suc (suc (suc (suc (suc (loop_length ts))))))

module _ (K : Kernel) (val : ℕ) (e : AtEnable) where
  returned-stays :
      (n : ℕ) (r : Ret) (t : Tx)
      → both_run K val (only Turn.filter n) (both (AtFilter.returned r) e t)
        ≡ some (both (AtFilter.returned r) e t)
  unfolding both_run filter_next
  returned-stays zero r t = refl
  returned-stays (suc n) r t = returned-stays n r t

  testing-run :
      (b : Bool) (t : Tx)
      → both_run K val
          (only Turn.filter 6)
          (both (if b then AtFilter.arming hooks else AtFilter.returned (ok 0)) e t)
        ≡ some (both (AtFilter.returned (ok 0)) e (if b then switch_on t else t))
  unfolding both_run filter_next enable_tx_stat_probes
  testing-run true t = refl
  testing-run false t = refl

  -- From the loop on.
  reading-run :
      (ts : List Bytes) (t : Tx)
      → both_run K val (only Turn.filter (loop_length ts)) (both (AtFilter.reading ts) e t)
        ≡ after_filter e (filter_done (add_pids K ts t))
  unfolding both_run filter_next add_pids add_pid
  reading-run [] t = testing-run t.tx_enabled t
  reading-run (s ∷ ts) t = elim (Bool-cases (is_empty s)) [
    | inl z ↦ rw z (reading-run ts t)
    | inr z ↦ elim (Parsed-cases (K.kstrtoul s)) [
      | inl (x, b) ↦ rw (z, b) (returned-stays (behind_token ts) (fail einval) _)
      | inr (p, v) ↦ elim (Bool-cases (ltb (as_int p) K.pid_max)) [
        | inl room ↦ rw (z, v, room) (reading-run ts (set_bit (as_int p) t))
        | inr full ↦ rw (z, v, full) refl
      ]
    ]
  ]

-- A write to `filter` alone, from behind its copy of the text, comes to what its handler comes to.
pub both_run-filter :
    (K : Kernel) (val : ℕ) (e : AtEnable) (ts : List Bytes) (t : Tx)
    → both_run K val (only Turn.filter (filter_length ts)) (both (AtFilter.disarming hooks ts) e t)
      ≡ after_filter e (filter_done (add_pids K ts (switch_off t)))
unfolding both_run filter_next disable_tx_stat_probes
both_run-filter K val e ts t = reading-run K val e ts (switch_off t)

-- And so does a write to `enable` alone.
pub both_run-enable :
    (K : Kernel) (val : ℕ) (f : AtFilter) (t : Tx)
    → both_run K val (only Turn.enable 9) (both f AtEnable.setting t)
      ≡ some (both f AtEnable.done (tx_stats_enable_write val t).1)
unfolding both_run enable_next tx_stats_enable_write enable_tx_stat_probes disable_tx_stat_probes
both_run-enable K val f t = elim (Bool-cases (val % 256 == 0)) [
  | inl z ↦ rw z refl
  | inr z ↦ rw z refl
]
