-- ===== src/Tracer/Tx/Refine.antt =====
-- What the specification keeps of a state of `tx_stat`, and what a call of its handlers or probes answers.
pub mod Each
pub mod All
use w_perf_archived.Base.{ℕ, ◌≡◌, Option, none, some}
use w_perf_archived.Tracer.Kernel.{Kernel, Seq, Ret, empty_seq}
use w_perf_archived.Tracer.Tx.{
  Tx, tx_stats_enable_write, tx_stats_filter_write, tx_stats_output_read,
}
use w_perf_archived.Tracer.Tx.Pids.{member}
use w_perf_archived.Tracer.Tx.Count.{send}
use w_perf_archived.Tracer.Tx.Filter.{all_probes}
use w_perf_archived.Tracer.Tx.Calls.{Call, enable, filter, output}
use w_perf_archived.Tracer.Tx.Calls
use w_perf_archived.Tracer.Tx.Spec.{Watch, Reply, returned, printed, Allowed}
use w_perf_archived.Tracer.Tx.Spec

abbrev pub reply_of : Option (Ret × Tx) → Option (Reply × Tx)
reply_of none = none
reply_of (some (r, t)) = some (returned r, t)

abbrev pub printed_of : Option (Seq × Tx) → Option (Reply × Tx)
printed_of none = none
printed_of (some (s, t)) = some (printed s, t)

-- What a call answers and changes.
unfoldable pub answer : Kernel → Call → Tx → Option (Reply × Tx)
unfolding tx_stats_enable_write tx_stats_filter_write tx_stats_output_read send
answer K (enable val) t = let r = tx_stats_enable_write val t in some (returned r.0, r.1)
answer K (filter dup text) t = reply_of (tx_stats_filter_write K dup text t)
answer K output t = printed_of (tx_stats_output_read K t empty_seq)
answer K (Calls.sent s) t = some (Spec.nothing, send s t)

-- The state keeps what the specification keeps.
pub record Implements (t : Tx) (w : Watch) : Type 0 where
  pub filter : (n : ℕ) → t.filter n ≡ member n w.watched
  pub bytes : (n : ℕ) → t.tx_stats n ≡ w.bytes n
  pub enabled : t.tx_enabled ≡ w.enabled
  pub probes : t.probes ≡ all_probes w.counting

-- A result of the handlers and one of the specification with the same reply.
abbrev pub Agree : {R : Type 0} → Option (R × Tx) → Option (R × Watch) → Type 0
Agree none none = Unit
Agree (some (r, t)) (some (r', w)) = (r ≡ r') × Implements t w
Agree _ _ = ⊥

-- Some outcome that is allowed agrees with `o`.
abbrev pub Follows : Kernel → Watch → Call → Option (Reply × Tx) → Type 0
Follows K w c o = (q : Option (Reply × Watch)) × Allowed K w c q × Agree o q
