-- ===== src/Recorder/Program/Laws.antt =====
-- What a run of the recorder comes to.
use w_perf_archived.Base.{
  ℕ, ◌≡◌, refl, sym, ap, ◌∙◌, true, false, Option, none, some, List, ◌++◌, All, Bool-cases, inl,
  inr, arith, Option-cases,
}
use w_perf_archived.Tracer.Text.{Bytes}
use w_perf_archived.Recorder.Debugfs.{Attempt, instances}
use w_perf_archived.Recorder.Debugfs.Laws.{setup_writes}
use w_perf_archived.Recorder.Workers
use w_perf_archived.Recorder.Workers.Laws.{IsReady, expected}
use w_perf_archived.Recorder.Expiry.{Recorder, started}
use w_perf_archived.Recorder.Options.{Opt, Config, init_config}
use w_perf_archived.Recorder.Options.Laws.{lasts, all_good, parse_opts-lasts, last, pick_filter}
use w_perf_archived.Recorder.Run.{Hosts, Start, looping, returned, stopped, undefined, recorder_run}
use w_perf_archived.Recorder.Run.Laws.{
  bufsize_writes, pipes_of, recorder_run-looping, recorder_run-no_filter,
}
use w_perf_archived.Recorder.Program.{exits, settings_of, status, end_of, run_config, main}

-- What the options leave.
abbrev pub chosen : (Bytes → Option ℕ) → List Opt → Config
chosen scan os = lasts scan os init_config

module _ (H : Hosts) (uv_run : List (Bytes × Bytes) → Recorder → ℕ) (scan : Bytes → Option ℕ)
    (os : List Opt) where
  main-good :
      all_good scan os ≡ true
      → main H uv_run scan os ≡ end_of H uv_run (recorder_run H (settings_of (chosen scan os)))
  unfolding main
  main-good g = ap (run_config H uv_run) (parse_opts-lasts scan os init_config) ∙ rw g refl

  main-bad : all_good scan os ≡ false → main H uv_run scan os ≡ exits 1
  unfolding main
  main-bad g = ap (run_config H uv_run) (parse_opts-lasts scan os init_config) ∙ rw g refl

  -- On a host where all succeeds, with options that are known, among them one for the filter
  -- expression, and lists of devices that are served: `main` comes to the status of `uv_run` (1 if
  -- it is not 0), which is run over the pipe and the file of each instance in the directory that
  -- was chosen last, with both handles active and the workers of the lists that were chosen last,
  -- behind the writes of the buffer size that was chosen last, of the filters and of the flags, in
  -- this order.
  pub main-looping :
      (fd : Bytes → ℕ) (ready : IsReady H.io fd) (expr : Bytes) (w : Workers.Workers)
      → all_good scan os ≡ true
      → last (pick_filter scan) os none ≡ some expr
      → let cf = chosen scan os in
        expected H.io fd ready cf.output_dir cf.disk_list cf.nic_list ≡ Workers.going w
        → H.memory ≡ true
        → All (λ w. H.files w.0 w.1 ≡ Attempt.succeeds) (bufsize_writes cf.bufsize_kb instances)
        → All (λ w. H.files w.0 w.1 ≡ Attempt.succeeds) (setup_writes H.files expr)
        → main H uv_run scan os
          ≡ status (
              uv_run (pipes_of cf.output_dir instances) (
                started w.worker_count
                  (bufsize_writes cf.bufsize_kb instances ++ setup_writes H.files expr)))
  unfolding init_config
  main-looping fd ready expr w g f io mem hb hs =
      main-good g
      ∙ ap (end_of H uv_run)
          (recorder_run-looping H fd ready (settings_of (chosen scan os)) expr w f io mem hb hs)

  -- What stands behind a status of 0.
  abbrev pub Served : Start → Type 0
  Served s = (ps : List (Bytes × Bytes)) × (r : Recorder) × (s ≡ looping ps r) × (uv_run ps r ≡ 0)

  end_of-Served : (s : Start) → end_of H uv_run s ≡ exits 0 → Served s
  end_of-Served (looping ps r) h = (ps, r, refl, ground (arith, h))
  end_of-Served returned h = absurd (cc)
  end_of-Served stopped h = absurd (cc)
  end_of-Served undefined h = absurd (cc)

  -- On any host, if `main` ends with the status 0, then all options were known and each period a
  -- number, the run reached the loop of libuv, which ended with 0, and a filter expression was
  -- chosen.
  pub main-exits :
      main H uv_run scan os ≡ exits 0
      → (all_good scan os ≡ true)
        × Served (recorder_run H (settings_of (chosen scan os)))
        × ((expr : Bytes) × (last (pick_filter scan) os none ≡ some expr))
  unfolding init_config
  main-exits h = elim (Bool-cases (all_good scan os)) [
    | inl g ↦
        let s = end_of-Served _ (sym (main-good g) ∙ h) in
        (
          g,
          s,
          elim (Option-cases (chosen scan os).filter_expr) [
            | inl e ↦ absurd (recorder_run-no_filter H (settings_of (chosen scan os)) s.0 s.1 e s.2)
            | inr x ↦ x
          ],
        )
    | inr b ↦ let e = sym (main-bad b) ∙ h in absurd (cc)
  ]
