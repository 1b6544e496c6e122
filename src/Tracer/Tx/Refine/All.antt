-- ===== src/Tracer/Tx/Refine/All.antt =====
-- Any calls of `tx_stat` in any order do only what the specification allows.
use w_perf_archived.Base.{Option, none, some, List, [], ◌∷◌}
use w_perf_archived.Tracer.Kernel.{Kernel}
use w_perf_archived.Tracer.Tx.{Tx}
use w_perf_archived.Tracer.Tx.Calls.{Call}
use w_perf_archived.Tracer.Tx.Spec.{Watch, Reply, Runs}
use w_perf_archived.Tracer.Tx.Refine.{answer, Agree}

abbrev pub prepend : Reply → Option (List Reply × Tx) → Option (List Reply × Tx)
prepend r none = none
prepend r (some (rs, t)) = some (r ∷ rs, t)

abbrev pub then_answer :
    (Tx → Option (List Reply × Tx)) → Option (Reply × Tx) → Option (List Reply × Tx)
then_answer f none = none
then_answer f (some (r, t)) = prepend r (f t)

-- The answers of a list of calls, and the state behind them.
unfoldable pub answers : Kernel → List Call → Tx → Option (List Reply × Tx)
unfolding answer
answers K [] t = some ([], t)
answers K (c ∷ cs) t = then_answer (answers K cs) (answer K c t)

-- Some outcome of the calls that is allowed agrees with `o`.
abbrev pub RunsAs : Kernel → Watch → List Call → Option (List Reply × Tx) → Type 0
RunsAs K w cs o = (q : Option (List Reply × Watch)) × Runs K w cs q × Agree o q
