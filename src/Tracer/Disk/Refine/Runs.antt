-- ===== src/Tracer/Disk/Refine/Runs.antt =====
-- Any calls in any order do what the specification says.
use w_perf_archived.Base.{◌≡◌, refl, ap, ◌∙◌, Option, none, some, List, [], ◌∷◌, All}
use w_perf_archived.Tracer.Text.{IsText}
use w_perf_archived.Tracer.Kernel.{Kernel, Ret, empty_seq}
use w_perf_archived.Tracer.Disk.{Disk}
use w_perf_archived.Tracer.Disk.Valid.{
  Valid, Valid-if, ValidResult, dutils_enable_write-Valid, dutils_filter_write-Valid,
  dutils_output_read-Valid, on_part_round_stats_ent-Valid,
}
use w_perf_archived.Tracer.Disk.Calls.{Call, enable, filter, output, round_stats}
use w_perf_archived.Tracer.Disk.Spec.{Watch, Reply, call_spec}
use w_perf_archived.Tracer.Disk.Refine.{watch_of, reply_of, answer, watched}
use w_perf_archived.Tracer.Disk.Refine.Filter.{enable-watched, filter-watched}
use w_perf_archived.Tracer.Disk.Refine.Output.{output-watched}
use w_perf_archived.Tracer.Disk.Refine.Charge.{part_of, round_stats-watched}

abbrev pub prepend : {D : Type 0} → Reply → Option (List Reply × D) → Option (List Reply × D)
prepend r none = none
prepend r (some (rs, d)) = some (r ∷ rs, d)

abbrev pub then_answer :
    {D : Type 0} → (D → Option (List Reply × D)) → Option (Reply × D) → Option (List Reply × D)
then_answer f none = none
then_answer f (some (r, d)) = prepend r (f d)

-- The answers of a list of calls, and the state behind them.
unfoldable pub answers : Kernel → List Call → Disk → Option (List Reply × Disk)
unfolding answer
answers K [] d = some ([], d)
answers K (c ∷ cs) d = then_answer (answers K cs) (answer K c d)

-- The same in the specification.
abbrev pub calls_spec : Kernel → List Call → Watch → Option (List Reply × Watch)
calls_spec K [] w = some ([], w)
calls_spec K (c ∷ cs) w = then_answer (calls_spec K cs) (call_spec K c w)

abbrev pub all_watched : Option (List Reply × Disk) → Option (List Reply × Watch)
all_watched none = none
all_watched (some (rs, d)) = some (rs, watch_of d)

-- The texts that come with a call are C strings.
abbrev pub IsAsked : Call → Type 0
IsAsked (filter dup text) = IsText text
IsAsked (round_stats now part part0) = IsText (part_of part part0).dev_name
IsAsked _ = Unit

answer-watched :
    (K : Kernel) (c : Call) (d : Disk)
    → IsAsked c
    → Valid d
    → watched (answer K c d) ≡ call_spec K c (watch_of d)
answer-watched K (enable val) d h v = enable-watched K val d
answer-watched K (filter dup text) d h v = filter-watched K dup text d h v
answer-watched K output d h v = output-watched K d v
answer-watched K (round_stats now part part0) d h v = round_stats-watched K now part part0 d h v

-- The state of an answer is valid.
abbrev ValidAnswer : Option (Reply × Disk) → Type 0
ValidAnswer none = Unit
ValidAnswer (some (r, d)) = Valid d

reply_of-Valid : (o : Option (Ret × Disk)) → ValidResult o → ValidAnswer (reply_of o)
reply_of-Valid none h = tt
reply_of-Valid (some (r, d)) h = h

answer-Valid : (K : Kernel) (c : Call) (d : Disk) → IsAsked c → Valid d → ValidAnswer (answer K c d)
unfolding answer
answer-Valid K (enable val) d h v = dutils_enable_write-Valid val d v
answer-Valid K (filter dup text) d h v =
    reply_of-Valid _ (dutils_filter_write-Valid K dup text d h v)
answer-Valid K output d h v = dutils_output_read-Valid K d empty_seq v
answer-Valid K (round_stats now part part0) d h v =
    Valid-if d.armed (λ _. on_part_round_stats_ent-Valid K now part part0 d v) (λ _. v)

prepend-watched :
    (r : Reply) (o : Option (List Reply × Disk))
    → all_watched (prepend r o) ≡ prepend r (all_watched o)
prepend-watched r none = refl
prepend-watched r (some (rs, d)) = refl

then_answer-watched :
    (f : Disk → Option (List Reply × Disk)) (g : Watch → Option (List Reply × Watch))
    → (o : Option (Reply × Disk)) → ValidAnswer o
    → ((d : Disk) → Valid d → all_watched (f d) ≡ g (watch_of d))
    → all_watched (then_answer f o) ≡ then_answer g (watched o)
then_answer-watched f g none v h = refl
then_answer-watched f g (some (r, d)) v h = prepend-watched r (f d) ∙ ap (prepend r) (h d v)

-- From a valid state, with texts without NUL, any calls of the handlers that may change the state
-- of `disk_utils`, and of its probe, in any order, answer and change what the specification says,
-- which knows a list of names, a list of counters and two flags: each result and each text that is
-- printed is the specification's, the state that is left is an implementation of its state, and a
-- write outside of the array happens exactly where it says so.
pub answers-watched :
    (K : Kernel) (cs : List Call) (d : Disk)
    → All IsAsked cs
    → Valid d
    → all_watched (answers K cs d) ≡ calls_spec K cs (watch_of d)
unfolding answers
answers-watched K [] d h v = refl
answers-watched K (c ∷ cs) d (h, hs) v =
    then_answer-watched (answers K cs) (calls_spec K cs) (answer K c d) (answer-Valid K c d h v)
      (λ e w. answers-watched K cs e hs w)
    ∙ ap (then_answer (calls_spec K cs)) (answer-watched K c d h v)
