-- ===== src/Recorder/Loop/CanEnd.antt =====
-- That the loop of the recorder can always end, as long as no interrupt has come.
use w_perf_archived.Base.{ℕ, ◌<◌, ◌==◌, ◌≡◌, true, List, if◌then◌else◌}
use w_perf_archived.Recorder.Pump.{Ctx}
use w_perf_archived.Recorder.Pump.Steps.{State, fill, flush}
use w_perf_archived.Recorder.Pump.Steps
use w_perf_archived.Recorder.Workers
use w_perf_archived.Recorder.Workers.{Workers}
use w_perf_archived.Recorder.Debugfs.{Write, Host, running, reset_events}
use w_perf_archived.Recorder.Expiry.{Recorder}
use w_perf_archived.Recorder.Expiry.Cycle
use w_perf_archived.Recorder.Expiry.Cycle.{Cycle}
use w_perf_archived.Recorder.Loop.{Loop, PumpStep, Step, among, Quiet}

-- Steps of one context, in a recorder that has expired.
data Moves : Ctx → Ctx → Type 0 where
  stay : {c : Ctx} → Moves c c
  move :
      {c d e : Ctx}
      → Steps.Step (record { ctx = c; expired = true }) (record { ctx = d; expired = true })
      → Moves d e
      → Moves c e

abbrev Settles : Ctx → Type 0
Settles c = (d : Ctx) × Moves c d × Quiet d

-- Steps of the contexts.
data PumpPath : List Ctx → List Ctx → Type 0 where
  stay : {cs : List Ctx} → PumpPath cs cs
  move : {cs ds es : List Ctx} → PumpStep true cs ds → PumpPath ds es → PumpPath cs es

module _ (host : Host) where
  -- The handles that are open are those of workers below `k`, of which a process has not ended.
  abbrev Watched : ℕ → Loop → Type 0
  Watched k t = (i : ℕ) → t.is_open i ≡ true → (i < k) × (among i t.helpers ≡ true)

  -- What the recorder has written, before the timer and behind it.
  abbrev Wrote : List Write → Recorder → Type 0
  Wrote log r =
      r.interrupts ≡ 0 → r.run ≡ (if r.timeouts == 0 then running log else reset_events host log)
