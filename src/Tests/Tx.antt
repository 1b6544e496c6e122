-- ===== src/Tests/Tx.antt =====
-- The `tx_stat` handlers at concrete inputs.
use w_perf_archived.Base.{◌≡◌, refl, true, false, none, some, List, [], ◌∷◌, ◌++◌, arith}
use w_perf_archived.Tracer.Text.{Bytes, codes, newline, all_tokens}
use w_perf_archived.Tracer.Kernel.{einval, bad, empty_seq, trace_seq_nl}
use w_perf_archived.Tracer.Tx.{
  Tx, init, update, add_pids, tx_stats_filter_write, tx_stats_output_read, enable_tx_stat_probes,
}
use w_perf_archived.Tracer.Tx.Count.{Send, Hook, sends, Counted, sends-Counted}
use w_perf_archived.Tracer.Tx.Filter.{PidsOf, pid, done, wrong, skip, all_probes}
use w_perf_archived.Tracer.Tx.Pids.{pids_of}
use w_perf_archived.Tracer.Tx.Valid.{init-Valid}
use w_perf_archived.Tracer.Tx.Calls
use w_perf_archived.Tracer.Tx.Calls.{calls, all_calls-Valid, ValidState}
use w_perf_archived.Tracer.Tx.Spec.{Watch}
use w_perf_archived.Tracer.Tx.Order.{tx_stats_filter_write-order}
use w_perf_archived.Tests.Kernel.{sample}
use mathlib.Core.Quot

-- Two pids are watched, the event is enabled, and 12 has sent 100 bytes.
abbrev watching : Tx
watching = record {
  tx_stats = update (λ n. 0) 12 100;
  filter = update (update (λ n. false) 12 true) 34 true;
  tx_enabled = true;
  probes = all_probes true;
}

abbrev two_pids : Bytes
two_pids = codes "12,,34" ++ newline ∷ []

two_pids_read : PidsOf sample two_pids (12 ∷ 34 ∷ []) none
unfolding all_tokens sample
two_pids_read = pid refl refl refl (omega arith) (skip (pid refl refl refl (omega arith) done))

-- A refused token.
bad_pids_read : PidsOf sample (codes "5,x,6") (5 ∷ []) (some (bad einval))
unfolding all_tokens sample
bad_pids_read = pid refl refl refl (omega arith) (wrong refl refl)

abbrev traffic : List Send
traffic =
    record { hook = Hook.tcp_sendmsg; pid = 12; size = 10 }
    ∷ record { hook = Hook.udp_sendpage; pid = 13; size = 20 }
    ∷ record { hook = Hook.sock_sendmsg; pid = 12; size = 30 }
    ∷ []

sends-Counted_example : Counted traffic watching (sends traffic watching) 12
sends-Counted_example = sends-Counted traffic watching 12 (omega arith)

traffic_count : (sends traffic watching).tx_stats 12 ≡ 140
unfolding sends
traffic_count = refl

output_line :
    tx_stats_output_read sample watching empty_seq
    ≡ some (record { text = codes "12=100,34=0" ++ newline ∷ []; full = false }, watching)
unfolding tx_stats_output_read sample enable_tx_stat_probes trace_seq_nl
output_line = refl

abbrev history : List Calls.Call
history =
    Calls.enable 1
    ∷ Calls.filter true two_pids
    ∷ Calls.sent (record { hook = Hook.tcp_sendmsg; pid = 12; size = 10 })
    ∷ Calls.output
    ∷ []

all_calls-Valid_example : ValidState sample (calls sample history init)
all_calls-Valid_example = all_calls-Valid sample history init (init-Valid sample)

-- The same pids in another order, one of them twice.
abbrev other_order : Bytes
other_order = codes "34,12,34"

other_order_read : PidsOf sample other_order (34 ∷ 12 ∷ 34 ∷ []) none
unfolding all_tokens sample
other_order_read =
    pid refl refl refl (omega arith)
      (pid refl refl refl (omega arith) (pid refl refl refl (omega arith) done))

same_pids : pids_of (12 ∷ 34 ∷ []) ≡ pids_of (34 ∷ 12 ∷ 34 ∷ [])
same_pids = Quot.sound (λ n. ground arith)

tx_stats_filter_write-order_example :
    tx_stats_filter_write sample true two_pids watching
    ≡ tx_stats_filter_write sample true other_order watching
tx_stats_filter_write-order_example =
    tx_stats_filter_write-order sample two_pids other_order watching (12 ∷ 34 ∷ [])
      (34 ∷ 12 ∷ 34 ∷ []) two_pids_read other_order_read same_pids

-- What the specification keeps of the state when the module is loaded.
abbrev fresh : Watch
fresh = record { watched = pids_of []; bytes = λ n. 0; enabled = false; counting = false }

-- 2^32 + 12 sets bit 12.
wrapped :
    tx_stats_filter_write sample true (codes "4294967308") init
    ≡ tx_stats_filter_write sample true (codes "12") init
unfolding tx_stats_filter_write sample all_tokens add_pids
wrapped = refl
