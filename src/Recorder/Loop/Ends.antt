-- ===== src/Recorder/Loop/Ends.antt =====
-- When the loop of the recorder ends.
use w_perf_archived.Base.{
  ℕ, ◌≤◌, ◌+◌, ◌==◌, ◌++◌, append-nil, ◌≡◌, ap, sym, ◌∙◌, Bool, false, List, [], ◌∷◌, arith, All,
  inl, inr,
}
use w_perf_archived.Recorder.Pump.{Bytes, Ctx}
use w_perf_archived.Recorder.Pump.Between.{Inv, in_flight}
use w_perf_archived.Recorder.Pump.Invariant.{Step-Inv, start-Inv}
use w_perf_archived.Recorder.Workers.{Workers}
use w_perf_archived.Recorder.Workers.Laws.{down}
use w_perf_archived.Recorder.Debugfs.{Write, Host}
use w_perf_archived.Recorder.Expiry.{started}
use w_perf_archived.Recorder.Expiry.Cycle
use w_perf_archived.Recorder.Expiry.Cycle.{Reach-Cycle, rounds}
use w_perf_archived.Recorder.Loop.{
  Loop, PumpStep, first, later, fires, pumps, ends, aborts, Leads, here, next, open_all, at_run,
  Quiet, IsOver,
}

PumpStep-Inv : {x : Bool} {cs ds : List Ctx} → PumpStep x cs ds → All Inv cs → All Inv ds
PumpStep-Inv (first st) (i, is) = (Step-Inv i st, is)
PumpStep-Inv (later st) (i, is) = (i, PumpStep-Inv st is)

open_all-Inv : (bufs : List Bytes) → All Inv (open_all bufs)
open_all-Inv [] = tt
open_all-Inv (buf ∷ bufs) = (start-Inv buf, open_all-Inv bufs)

-- A file that holds all that was read from its pipe.
abbrev pub Copied : Ctx → Type 0
Copied c = c.lost ≡ 0 → c.output ≡ c.input

-- The invariants of the parts, of a state of the loop.
pub record Sound (host : Host) (n : ℕ) (log : List Write) (s : Loop) : Type 0 where
  pub recorder : Cycle.Reach host (started n log) s.recorder
  pub pumps : All Inv s.pumps

module _ (host : Host) (bufs : List Bytes) (w : Workers) (log : List Write) where
  pub Leads-Sound : {s : Loop} → Leads host (at_run bufs w log) s → Sound host w.worker_count log s
  Leads-Sound here = record { recorder = Cycle.here; pumps = open_all-Inv bufs }
  Leads-Sound (next p (fires a st)) =
      let s = Leads-Sound p in record { recorder = Cycle.next s.recorder st; pumps = s.pumps }
  Leads-Sound (next p (pumps a e st)) =
      let s = Leads-Sound p in record { recorder = s.recorder; pumps = PumpStep-Inv st s.pumps }
  Leads-Sound (next p (ends a e h o)) =
      let s = Leads-Sound p in record { recorder = s.recorder; pumps = s.pumps }
  Leads-Sound (next p (aborts a e h o)) =
      let s = Leads-Sound p in record { recorder = s.recorder; pumps = s.pumps }

  Quiet-Copied : (cs : List Ctx) → All Inv cs → All Quiet cs → All Copied cs
  Quiet-Copied [] i q = tt
  Quiet-Copied (c ∷ cs) (i, is) (q, qs) = (
    λ l. sym (i.exact l ∙ ap (λ p. c.output ++ in_flight p) q ∙ append-nil c.output),
    Quiet-Copied cs is qs,
  )

  fired : (timeouts : ℕ) → false ≡ (timeouts == 0) → timeouts ≤ 1 → timeouts ≡ 1
  fired timeouts e h = ground arith

  -- From the call of `uv_run`, in every order of the timer, of interrupts, of what libuv completes
  -- for each pipe, and of the ends of the helpers' processes: when no handle is active and no
  -- request pending, the timer has come once, no interrupt has, each worker has been signalled
  -- once, from the last to the first, and each file of which no write left bytes out holds what was
  -- read from its pipe.
  pub Leads-IsOver :
      {s : Loop}
      → Leads host (at_run bufs w log) s
      → IsOver s
      → (s.recorder.timeouts ≡ 1)
        × (s.recorder.interrupts ≡ 0)
        × (s.recorder.killed ≡ down w.worker_count)
        × All Copied s.pumps
  Leads-IsOver {s} p o =
      let v = Leads-Sound p in
      let c = Reach-Cycle w.worker_count log v.recorder in
      let one = fired s.recorder.timeouts (sym o.signal ∙ c.signal) c.once in
      let none_in : s.recorder.interrupts ≡ 0 = elim c.one_end [
        | inl e ↦ e
        | inr e ↦ absurd (omega arith)
      ] in
      let once : s.recorder.interrupts + s.recorder.timeouts ≡ 1 = omega arith in
      (
        one,
        none_in,
        c.killed ∙ ap (λ k. rounds k w.worker_count) once,
        Quiet-Copied s.pumps v.pumps o.pumps,
      )
