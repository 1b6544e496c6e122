-- ===== src/Recorder/Program.antt =====
-- `main` of recorder/main.c: the options, the run, and the status that the program ends with.
-- `uv_run` is libuv's, with the result that it gives at the end of the loop.
pub mod Laws
use w_perf_archived.Base.{ℕ, Option, none, some, List, ◌==◌, if◌then◌else◌}
use w_perf_archived.Tracer.Text.{Bytes}
use w_perf_archived.Recorder.Expiry.{Recorder}
use w_perf_archived.Recorder.Options.{Opt, Config, init_config, parse_opts}
use w_perf_archived.Recorder.Run.{
  Settings, Hosts, Start, looping, returned, stopped, undefined, recorder_run,
}

-- How the program ends: with a status, or already in `recorder_run`, or without a meaning.
pub data End : Type 0 where
  exits : ℕ → End
  stops : End
  strays : End

-- The fields of the configuration that `recorder_run` reads.
abbrev pub settings_of : Config → Settings
settings_of cf = record {
  filter_expr = cf.filter_expr;
  bufsize_kb = cf.bufsize_kb;
  io = record { disk_list = cf.disk_list; nic_list = cf.nic_list; output_dir = cf.output_dir };
}

-- `if (err) exit(1); return 0;`, over what `recorder_run` returns.
abbrev pub status : ℕ → End
status err = if err == 0 then exits 0 else exits 1

module _ (H : Hosts) (uv_run : List (Bytes × Bytes) → Recorder → ℕ) where
  abbrev pub end_of : Start → End
  end_of (looping ps r) = status (uv_run ps r)
  end_of returned = exits 1
  end_of stopped = stops
  end_of undefined = strays

  -- The status of `usage`, or what the run comes to.
  abbrev pub run_config : Option Config → End
  run_config none = exits 1
  run_config (some cf) = end_of (recorder_run H (settings_of cf))

  unfoldable pub main : (Bytes → Option ℕ) → List Opt → End
  unfolding parse_opts recorder_run
  main scan os = run_config (parse_opts scan os init_config)
