-- ===== src/Recorder/Loop.antt =====
-- The loop of libuv that `recorder_run` ends in, over all that it watches: the timer and the signal of
-- recorder/recorder.c, the contexts of recorder/event.c, which read the recorder's flag, and the
-- helpers of recorder/ioworker.c.
pub mod Ends
pub mod CanEnd
use w_perf_archived.Base.{
  ℕ, ◌≡◌, Bool, true, false, ◌||◌, List, [], ◌∷◌, All, ◌==◌, ltb, if◌then◌else◌,
}
use w_perf_archived.Recorder.Pump.{Bytes, Ctx, record_event}
use w_perf_archived.Recorder.Pump.Steps
use w_perf_archived.Recorder.Workers.{Workers}
use w_perf_archived.Recorder.Debugfs.{Write, Host, running}
use w_perf_archived.Recorder.Expiry.{Recorder, started}
use w_perf_archived.Recorder.Expiry.Cycle

-- `helpers` are the processes that have not ended, by the places of their workers: a worker that has
-- been spawned twice stands there twice. `is_open` tells whether the process handle of a worker is
-- open; all the processes of a worker were spawned over this one handle.
pub record Loop : Type 0 where
  pub recorder : Recorder
  pub pumps : List Ctx
  pub helpers : List ℕ
  pub is_open : ℕ → Bool
  pub aborted : Bool

-- One context goes on, with the flag of the recorder.
pub data PumpStep (expired : Bool) : List Ctx → List Ctx → Type 0 where
  first :
      {c d : Ctx} {cs : List Ctx}
      → Steps.Step (record { ctx = c; expired = expired }) (record { ctx = d; expired = expired })
      → PumpStep expired (c ∷ cs) (d ∷ cs)
  later : {c : Ctx} {cs ds : List Ctx} → PumpStep expired cs ds → PumpStep expired (c ∷ cs) (c ∷ ds)

abbrev pub among : ℕ → List ℕ → Bool
among i [] = false
among i (j ∷ js) = (i == j) || among i js

abbrev pub remove_one : ℕ → List ℕ → List ℕ
remove_one i [] = []
remove_one i (j ∷ js) = if i == j then js else j ∷ remove_one i js

-- A process of worker `i` ends, and its callback closes the handle.
abbrev pub helper_ends : ℕ → Loop → Loop
helper_ends i s = record s {
  helpers = remove_one i s.helpers;
  is_open = λ j. if i == j then false else s.is_open j;
}

-- One more process of worker `i` ends: to close a handle that is closed is a failed assertion.
abbrev pub ends_again : ℕ → Loop → Loop
ends_again i s = record s { helpers = remove_one i s.helpers; aborted = true }

-- While the program runs: a callback that exits or aborts is the last one.
pub data Step (host : Host) (s : Loop) : Loop → Type 0 where
  fires :
      {r : Recorder}
      → s.aborted ≡ false
      → Cycle.Step host s.recorder r
      → Step host s (record s { recorder = r })
  pumps :
      {cs : List Ctx} {log : List Write}
      → s.aborted ≡ false
      → s.recorder.run ≡ running log
      → PumpStep s.recorder.expired s.pumps cs
      → Step host s (record s { pumps = cs })
  ends :
      {i : ℕ} {log : List Write}
      → s.aborted ≡ false
      → s.recorder.run ≡ running log
      → among i s.helpers ≡ true
      → s.is_open i ≡ true
      → Step host s (helper_ends i s)
  aborts :
      {i : ℕ} {log : List Write}
      → s.aborted ≡ false
      → s.recorder.run ≡ running log
      → among i s.helpers ≡ true
      → s.is_open i ≡ false
      → Step host s (ends_again i s)

pub data Leads (host : Host) (s : Loop) : Loop → Type 0 where
  here : Leads host s s
  next : {t u : Loop} → Leads host s t → Step host t u → Leads host s u

-- The contexts of `record_events`, with the buffers that it allocates.
abbrev pub open_all : List Bytes → List Ctx
open_all [] = []
open_all (buf ∷ bufs) = record_event buf ∷ open_all bufs

-- `recorder_run` at the call of `uv_run`, with the workers as `record_ioworkers` leaves them.
-- A process of the first spawn, whose result the program does not look at, may be missing; then it is one
-- that never ends.
abbrev pub at_run : List Bytes → Workers → List Write → Loop
at_run bufs w log = record {
  recorder = started w.worker_count log;
  pumps = open_all bufs;
  helpers = w.spawned;
  is_open = λ i. ltb i w.worker_count;
  aborted = false;
}

abbrev pub Quiet : Ctx → Type 0
Quiet c = c.pending ≡ []

-- `uv_run` returns: no handle is active and no request is pending.
pub record IsOver (s : Loop) : Type 0 where
  pub signal : s.recorder.sig_active ≡ false
  pub timer : s.recorder.timer_active ≡ false
  pub pumps : All Quiet s.pumps
  pub helpers : (i : ℕ) → s.is_open i ≡ false
  pub runs : s.aborted ≡ false
