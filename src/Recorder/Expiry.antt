-- ===== src/Recorder/Expiry.antt =====
-- The end of a recording, of recorder/recorder.c: the timer that expires, and the interrupts.
-- A handle of libuv that is active keeps `uv_run` going. The two handles here are the signal and the
-- timer; `none` of a step is a callback that cannot come, since its handle is not active or the
-- program has ended.
pub mod Cycle
use w_perf_archived.Base.{
  ℕ, zero, suc, ◌+◌, Bool, true, false, Option, none, some, List, [], ◌∷◌, ◌++◌, if◌then◌else◌,
}
use w_perf_archived.Recorder.Debugfs.{Write, Host, Run, running, exited, undefined, reset_events}

-- `struct recorder`, with the handles, the workers that were killed, the writes, and how often each
-- of the two callbacks came.
pub record Recorder : Type 0 where
  pub expired : Bool
  pub sig_active : Bool
  pub timer_active : Bool
  pub worker_count : ℕ
  pub killed : List ℕ
  pub run : Run
  pub interrupts : ℕ
  pub timeouts : ℕ

-- `while (worker_count--) uv_process_kill(…)`.
unfoldable pub kill_workers : ℕ → List ℕ → List ℕ
kill_workers zero killed = killed
kill_workers (suc n) killed = kill_workers n (killed ++ n ∷ [])

module _ (host : Host) where
  abbrev pub cleanup : List Write → Recorder → Recorder
  cleanup log r = record r {
    expired = true;
    killed = kill_workers r.worker_count r.killed;
    run = reset_events host log;
  }

  unfoldable pub sig_cleanup : List Write → Recorder → Recorder
  sig_cleanup log r = record (cleanup log r) { timer_active = false; interrupts = r.interrupts + 1 }

  -- A timer without a repeat is not active any more when its callback runs.
  unfoldable pub timer_expire : List Write → Recorder → Recorder
  timer_expire log r = record (cleanup log r) {
    timer_active = false;
    sig_active = false;
    timeouts = r.timeouts + 1;
  }

-- `recorder_run` at the call of `uv_run`, with what it has written before.
abbrev pub started : ℕ → List Write → Recorder
started worker_count log = record {
  expired = false;
  sig_active = true;
  timer_active = true;
  worker_count = worker_count;
  killed = [];
  run = running log;
  interrupts = 0;
  timeouts = 0;
}
