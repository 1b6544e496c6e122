-- ===== src/Tracer/Disk/Race/Alone.antt =====
-- Each writer alone does what its handler does.
use w_perf_archived.Base.{
  ℕ, zero, suc, ◌+◌, ◌%◌, ◌≡◌, refl, sym, ap, ◌∙◌, Bool, true, false, Option, none, some, List, [],
  ◌∷◌, le→ltb, lt→ltb, ltb, ◌==◌, if◌then◌else◌, length, set, replicate, arith, Bool-cases, inl,
  inr,
}
use w_perf_archived.Tracer.Text.{Bytes}
use w_perf_archived.Tracer.Kernel.{Ret, ok, fail, einval}
use w_perf_archived.Tracer.Disk.{
  Disk, max_disk_num, max_dname_size, is_empty, put_name, store_names, filter_done, clear,
  dutils_enable_write,
}
use w_perf_archived.Tracer.Disk.Spec.{zero_first}
use w_perf_archived.Tracer.Disk.Refine.Filter.{clear-zero_first}
use w_perf_archived.Tracer.Disk.Race.{
  PcFilter, filter_step, PcEnable, enable_step, Writers, Side, with_filter, then_go, writers_run,
}

abbrev pub writers : PcFilter → PcEnable → Disk → Writers
writers f e d = record { pc_filter = f; pc_enable = e; disk = d }

-- A result of the handler, where the writer has returned.
abbrev pub after_filter : PcEnable → Option (Ret × Disk) → Option Writers
after_filter e none = none
after_filter e (some (r, d)) = some (writers (PcFilter.returned r) e d)

-- `n` statements of one writer.
abbrev pub only : Side → ℕ → List Side
only s n = replicate n s

module _ (val : ℕ) (e : PcEnable) where
  returned-stays :
      (n : ℕ) (r : Ret) (d : Disk)
      → writers_run val (only Side.filter n) (writers (PcFilter.returned r) e d)
        ≡ some (writers (PcFilter.returned r) e d)
  unfolding writers_run filter_step
  returned-stays zero r d = refl
  returned-stays (suc n) r d = returned-stays n r d

  testing-run :
      (b : Bool) (d : Disk)
      → then_go
          (λ w. some w)
          (with_filter e (filter_step (if b then PcFilter.arming else PcFilter.returned (ok 0)) d))
        ≡ some (writers (PcFilter.returned (ok 0)) e (if b then (record d { armed = true }) else d))
  unfolding filter_step
  testing-run true d = refl
  testing-run false d = refl

  -- From the loop on.
  storing-run :
      (ts : List Bytes) (d : Disk)
      → writers_run val
          (only Side.filter (suc (suc (suc (length ts)))))
          (writers (PcFilter.storing ts) e d)
        ≡ after_filter e (filter_done (store_names ts d))
  unfolding writers_run filter_step store_names
  storing-run [] d = testing-run d.denabled d
  storing-run (t ∷ ts) d = elim (Bool-cases (is_empty t)) [
    | inl z ↦ rw z (storing-run ts d)
    | inr z ↦ elim (Bool-cases (ltb max_dname_size (length t + 1))) [
      | inl long ↦ rw (z, long) (returned-stays (suc (suc (suc (length ts)))) (fail einval) d)
      | inr short ↦ elim (Bool-cases (ltb d.didx max_disk_num)) [
        | inl room ↦ rw (z, short, room) (storing-run ts (put_name t d))
        | inr full ↦ rw (z, short, full) refl
      ]
    ]
  ]

-- A write to `filter` alone, from behind its copy of the text, comes to what its handler comes to.
pub writers_run-filter :
    (val : ℕ) (e : PcEnable) (ts : List Bytes) (d : Disk)
    → writers_run val
        (only Side.filter (suc (suc (suc (suc (suc (length ts)))))))
        (writers (PcFilter.emptying ts) e d)
      ≡ after_filter e (filter_done (store_names ts (record d { didx = 0; armed = false })))
unfolding writers_run filter_step
writers_run-filter val e ts d = storing-run val e ts (record d { didx = 0; armed = false })

module _ (val : ℕ) (f : PcFilter) where
  done-stays :
      (n : ℕ) (d : Disk)
      → writers_run val (only Side.enable n) (writers f PcEnable.done d)
        ≡ some (writers f PcEnable.done d)
  unfolding writers_run enable_step
  done-stays zero d = refl
  done-stays (suc n) d = done-stays n d

  set-zero_first : (i : ℕ) (cs : List ℕ) → set (zero_first i cs) i 0 ≡ zero_first (suc i) cs
  set-zero_first zero [] = refl
  set-zero_first zero (c ∷ cs) = refl
  set-zero_first (suc i) [] = refl
  set-zero_first (suc i) (c ∷ cs) = ap (λ l. 0 ∷ l) (set-zero_first i cs)

  -- From round `i` of the loop on.
  clearing-run :
      (n i : ℕ) (cs : List ℕ) (d : Disk)
      → i + n ≡ d.didx
      → d.dutils ≡ zero_first i cs
      → writers_run val (only Side.enable (suc (suc n))) (writers f (PcEnable.clearing i) d)
        ≡ some (writers f PcEnable.done (record d { dutils = zero_first d.didx cs; didx = 0 }))
  unfolding writers_run enable_step
  clearing-run zero i cs d h q =
      let at : i ≡ d.didx = omega arith in
      rw (le→ltb i d.didx (omega arith)) (
        ap (λ l. some (writers f PcEnable.done (record d { dutils = l; didx = 0 })))
          (q ∙ ap (λ k. zero_first k cs) at))
  clearing-run (suc n) i cs d h q =
      let one_more : suc i ≡ i + 1 = omega arith in
      rw (lt→ltb i d.didx (omega arith)) (
        clearing-run n (i + 1) cs (record d { dutils = set d.dutils i 0 }) (omega arith)
          (ap (λ l. set l i 0) q ∙ set-zero_first i cs ∙ ap (λ k. zero_first k cs) one_more))

  -- From the switch on, with the flag off and on.
  off-run :
      (d : Disk)
      → writers_run val
          (only Side.enable (suc (suc (suc (suc d.didx)))))
          (writers f PcEnable.switching (record d { denabled = false }))
        ≡ some (
            writers f PcEnable.done (record d {
              denabled = false;
              armed = false;
              dutils = clear d.didx d.dutils;
              didx = 0;
            }))
  unfolding writers_run enable_step
  off-run d =
      clearing-run d.didx 0 d.dutils (record d { denabled = false; armed = false }) (omega arith)
        refl
      ∙ ap
          (λ l. some (
            writers f PcEnable.done
              (record d { denabled = false; armed = false; dutils = l; didx = 0 })))
          (sym (clear-zero_first d.didx d.dutils))

  on-run :
      (n : ℕ) (d : Disk)
      → writers_run val
          (only Side.enable (suc (suc n)))
          (writers f PcEnable.switching (record d { denabled = true }))
        ≡ some (writers f PcEnable.done (record d { denabled = true; armed = true }))
  unfolding writers_run enable_step
  on-run n d = done-stays n (record d { denabled = true; armed = true })

-- And so does a write to `enable` alone.
pub writers_run-enable :
    (val : ℕ) (f : PcFilter) (d : Disk)
    → writers_run val
        (only Side.enable (suc (suc (suc (suc (suc d.didx))))))
        (writers f PcEnable.setting d)
      ≡ some (writers f PcEnable.done (dutils_enable_write val d).1)
unfolding writers_run enable_step dutils_enable_write
writers_run-enable val f d = elim (Bool-cases (val % 256 == 0)) [
  | inl z ↦ rw z (off-run val f d)
  | inr z ↦ rw z (on-run val f (suc (suc d.didx)) d)
]
