-- ===== src/Tests/Options.antt =====
-- A command line.
use w_perf_archived.Base.{ℕ, ◌≡◌, Option, none, some, List, [], ◌∷◌}
use w_perf_archived.Tracer.Text.{Bytes, codes}
use w_perf_archived.Recorder.Options.{Opt, filter, period, output, init_config, parse_opts}
use w_perf_archived.Recorder.Options.Laws.{lasts, parse_opts-lasts}

abbrev scan : Bytes → Option ℕ
scan [] = none
scan (c ∷ s) = some c

abbrev line : List Opt
line = output (codes "a") ∷ filter (codes "pid == 7") ∷ period (codes "5") ∷ output (codes "b") ∷ []

parse_opts-lasts_example : parse_opts scan line init_config ≡ some (lasts scan line init_config)
parse_opts-lasts_example = parse_opts-lasts scan line init_config
