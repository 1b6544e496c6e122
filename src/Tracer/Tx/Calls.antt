-- ===== src/Tracer/Tx/Calls.antt =====
-- The `tx_stat` handlers as one machine: what user space and the kernel may call, in any order.
use w_perf_archived.Base.{ℕ, Bool, Option, none, some, List, [], ◌∷◌, refl}
use w_perf_archived.Tracer.Text.{Bytes}
use w_perf_archived.Tracer.Kernel.{Kernel, Ret, Seq, empty_seq}
use w_perf_archived.Tracer.Tx.{
  Tx, tx_stats_enable_write, tx_stats_filter_write, tx_stats_output_read, with_state,
}
use w_perf_archived.Tracer.Tx.Count.{Send, send}
use w_perf_archived.Tracer.Tx.Filter.{all_probes}
use w_perf_archived.Tracer.Tx.Print.{tx_stats_output_read-Listed}
use w_perf_archived.Tracer.Tx.Valid.{
  Valid, ValidResult, send-Valid, tx_stats_enable_write-Valid, tx_stats_filter_write-Valid,
}

-- A call that may change the state.
pub data Call : Type 0 where
  enable : (val : ℕ) → Call
  filter : (dup : Bool) → (text : Bytes) → Call
  output : Call
  sent : Send → Call

-- The state after a call; `none` where it wrote outside of the bitmap.
abbrev pub state_of : Option (Ret × Tx) → Option Tx
state_of none = none
state_of (some (r, t)) = some t

abbrev pub read_state : Option (Seq × Tx) → Option Tx
read_state none = none
read_state (some (s, t)) = some t

unfoldable pub call : Kernel → Call → Tx → Option Tx
unfolding tx_stats_enable_write tx_stats_filter_write tx_stats_output_read send
call K (enable val) t = some (tx_stats_enable_write val t).1
call K (filter dup text) t = state_of (tx_stats_filter_write K dup text t)
call K output t = read_state (tx_stats_output_read K t empty_seq)
call K (sent s) t = some (send s t)

abbrev pub then_do : (Tx → Option Tx) → Option Tx → Option Tx
then_do f none = none
then_do f (some t) = f t

-- The state after a list of calls.
unfoldable pub calls : Kernel → List Call → Tx → Option Tx
unfolding call
calls K [] t = some t
calls K (c ∷ cs) t = then_do (calls K cs) (call K c t)

module _ (K : Kernel) where
  abbrev pub ValidState : Option Tx → Type 0
  ValidState none = Unit
  ValidState (some t) = Valid K t

  state_of-Valid : (o : Option (Ret × Tx)) → ValidResult K o → ValidState (state_of o)
  state_of-Valid none h = tt
  state_of-Valid (some (r, t)) h = h

  with_state-Valid :
      (t : Tx) (o : Option Seq) → Valid K t → ValidState (read_state (with_state t o))
  with_state-Valid t none v = tt
  with_state-Valid t (some s) v = v

  rearmed-Valid : (t : Tx) → Valid K t → Valid K (record t { probes = all_probes t.tx_enabled })
  rearmed-Valid t v = record {
    on = t.tx_enabled;
    together = refl;
    gated = λ e. e;
    inside = v.inside;
    words = v.words;
  }

  call-Valid : (c : Call) (t : Tx) → Valid K t → ValidState (call K c t)
  unfolding call
  call-Valid (enable val) t v = tx_stats_enable_write-Valid K val t v
  call-Valid (filter dup text) t v = state_of-Valid _ (tx_stats_filter_write-Valid K dup text t v)
  call-Valid output t v =
      let (o, l, e) = tx_stats_output_read-Listed K t in
      rw e (with_state-Valid _ o (rearmed-Valid t v))
  call-Valid (sent s) t v = send-Valid K s t v

  then_do-Valid :
      (f : Tx → Option Tx) (o : Option Tx)
      → ((u : Tx) → Valid K u → ValidState (f u))
      → ValidState o
      → ValidState (then_do f o)
  then_do-Valid f none h w = tt
  then_do-Valid f (some u) h w = h u w

  -- From a valid state, any calls in any order keep the invariant of the data, unless one of them
  -- wrote outside of the bitmap: the five probes are on together and only while the event is
  -- enabled, only pids of the bitmap are watched, and the counters are unsigned longs.
  pub all_calls-Valid : (cs : List Call) (t : Tx) → Valid K t → ValidState (calls K cs t)
  unfolding calls
  all_calls-Valid [] t v = v
  all_calls-Valid (c ∷ cs) t v =
      then_do-Valid (calls K cs) (call K c t) (λ u. all_calls-Valid cs u) (call-Valid c t v)
