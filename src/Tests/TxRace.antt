-- ===== src/Tests/TxRace.antt =====
-- Two writers to `tx_stat` at the same time.
use w_perf_archived.Base.{
  ℕ, ◌<◌, ◌==◌, if◌then◌else◌, ◌≡◌, ◌++◌, refl, true, false, some, List, [], ◌∷◌, arith,
}
use w_perf_archived.Tracer.Text.{Bytes, codes}
use w_perf_archived.Tracer.Kernel.{ok, value}
use w_perf_archived.Tracer.Tx.{as_int, Tx, init}
use w_perf_archived.Tracer.Tx.Filter.{all_probes}
use w_perf_archived.Tracer.Tx.Race.{AtFilter, AtEnable, Both, Turn, both, both_run, hooks}
use w_perf_archived.Tracer.Tx.Race.Alone.{only}
use w_perf_archived.Tracer.Tx.Race.Split.{both_run-split}
use w_perf_archived.Tracer.Tx.Race.Inside.{Inside, both_run-Inside}
use w_perf_archived.Tracer.Tx.Race.Enabled.{both_run-enabled}
use w_perf_archived.Tests.Kernel.{sample}

abbrev enabled : Tx
enabled = record init { tx_enabled = true; probes = all_probes true }

both_run-split_example :
    (ss : List Turn) × (u : Tx) × (both_run sample 0 ss
        (both (AtFilter.disarming hooks ([] ∷ [])) AtEnable.setting enabled)
      ≡ some (both (AtFilter.returned (ok 0)) AtEnable.done u))
    × (u.tx_enabled ≡ false)
    × (u.filter ≡ λ n. false)
    × (u.probes.tcp_sendmsg ≡ false)
    × (u.probes.sock_sendmsg ≡ true)
both_run-split_example = both_run-split sample 0 enabled refl refl

-- The filter is read between the statements that enable the event.
abbrev turns : List Turn
turns =
    only Turn.filter 4
    ++ only Turn.enable 4
    ++ only Turn.filter 4
    ++ only Turn.enable 5
    ++ only Turn.filter 8

abbrev tokens : List Bytes
tokens = codes "12" ∷ []

abbrev left : Tx
left = record enabled { filter = λ n. if 12 == n then true else false }

both_run-enabled_example : (left.tx_enabled ≡ true) × (left.probes ≡ all_probes true)
unfolding both_run sample
both_run-enabled_example = both_run-enabled sample 1 turns tokens init left 0 (omega arith) refl

abbrev started : Both
started = both (AtFilter.disarming hooks tokens) AtEnable.setting init

value_eq : (a b : ℕ) → value a ≡ value b → a ≡ b
value_eq a b e = cc

twelve_known : (p : ℕ) → sample.kstrtoul (codes "12") ≡ value p → as_int p < sample.pid_max
unfolding sample
twelve_known p e = let q = value_eq 12 p e in omega arith

both_run-Inside_example :
    (w : Both) × (both_run sample 1 turns started ≡ some w) × Inside sample (λ n. 0) w
unfolding sample
both_run-Inside_example =
    both_run-Inside sample (λ n. 0) 1 turns started ((twelve_known, tt), ((λ n e. cc), refl))
