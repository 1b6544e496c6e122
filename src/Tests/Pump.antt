-- ===== src/Tests/Pump.antt =====
-- A recording of two chunks.
use w_perf_archived.Base.{refl, true, List, [], ◌∷◌, arith}
use w_perf_archived.Tracer.Text.{codes}
use w_perf_archived.Recorder.Pump.{Bytes, Ctx, got, ok, buffer_len, on_open, on_read, record_event}
use w_perf_archived.Recorder.Pump.Steps.{opened, did_read, expire, fill, Reach, here, next}
use w_perf_archived.Recorder.Pump.Between.{Inv}
use w_perf_archived.Recorder.Pump.Invariant.{Reach-Inv}
use w_perf_archived.Recorder.Pump.Drain.{drain, Ended, drain-Ended}

-- The pipe is open, and its first read waits.
abbrev ready : Ctx
unfolding record_event on_open
ready = on_open (ok 5) (record (record_event []) { pending = [] })

ready-Reach : Reach [] (record { ctx = ready; expired = true })
unfolding record_event on_open
ready-Reach = next (next here (opened [] [] (ok 5) refl)) expire

abbrev chunks : List Bytes
chunks = codes "abc" ∷ codes "de" ∷ []

drain-Ended_example :
    Ended chunks ready (drain chunks ready)
    × Reach [] (record { ctx = drain chunks ready; expired = true })
unfolding record_event on_open
drain-Ended_example =
    drain-Ended [] chunks ready ready-Reach refl
      ((omega arith, omega arith), ((omega arith, omega arith), tt))

-- The first read gives three bytes, and their write waits.
abbrev writing : Ctx
unfolding on_read
writing = on_read true (got (codes "abc")) (fill (got (codes "abc")) [] ready)

Reach-Inv_example : Inv writing
unfolding record_event on_open on_read
Reach-Inv_example =
    Reach-Inv []
      (next ready-Reach (did_read [] [] buffer_len (got (codes "abc")) refl (omega arith)))
