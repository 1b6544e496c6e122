-- ===== src/Tracer/Disk/Calls.antt =====
-- The `disk_utils` handlers as one machine: what user space and the kernel may call, in any order.
use w_perf_archived.Base.{ℕ, Bool, none, some, Option, List, [], ◌∷◌, All, if◌then◌else◌}
use w_perf_archived.Tracer.Text.{Bytes, IsText}
use w_perf_archived.Tracer.Kernel.{Kernel, Ret, empty_seq}
use w_perf_archived.Tracer.Disk.{
  Disk, Part, on_part_round_stats_ent, dutils_enable_write, dutils_filter_write, dutils_output_read,
}
use w_perf_archived.Tracer.Disk.Valid.{
  Valid, Valid-if, ValidResult, dutils_filter_write-Valid, dutils_enable_write-Valid,
  dutils_output_read-Valid, on_part_round_stats_ent-Valid,
}

-- A call that may change the state.
pub data Call : Type 0 where
  enable : (val : ℕ) → Call
  filter : (dup : Bool) → (text : Bytes) → Call
  output : Call
  round_stats : (now : ℕ) → (part part0 : Part) → Call

-- The state after a call; `none` where it ran past the array.
abbrev pub state_of : Option (Ret × Disk) → Option Disk
state_of none = none
state_of (some (r, d)) = some d

-- The probe's handler runs only while the probe is on.
unfoldable pub call : Kernel → Call → Disk → Option Disk
unfolding dutils_enable_write dutils_filter_write dutils_output_read on_part_round_stats_ent
call K (enable val) d = some (dutils_enable_write val d).1
call K (filter dup text) d = state_of (dutils_filter_write K dup text d)
call K output d = some (dutils_output_read K d empty_seq).1
call K (round_stats now part part0) d =
    some (if d.armed then on_part_round_stats_ent K now part part0 d else d)

abbrev pub then_do : (Disk → Option Disk) → Option Disk → Option Disk
then_do f none = none
then_do f (some d) = f d

-- The state after a list of calls.
unfoldable pub calls : Kernel → List Call → Disk → Option Disk
unfolding call
calls K [] d = some d
calls K (c ∷ cs) d = then_do (calls K cs) (call K c d)

-- The text of a write is a C string.
abbrev pub IsCall : Call → Type 0
IsCall (filter dup text) = IsText text
IsCall _ = Unit

abbrev pub ValidState : Option Disk → Type 0
ValidState none = Unit
ValidState (some d) = Valid d

state_of-Valid : (o : Option (Ret × Disk)) → ValidResult o → ValidState (state_of o)
state_of-Valid none h = tt
state_of-Valid (some (r, d)) h = h

pub call-Valid : (K : Kernel) (c : Call) (d : Disk) → IsCall c → Valid d → ValidState (call K c d)
unfolding call
call-Valid K (enable val) d h v = dutils_enable_write-Valid val d v
call-Valid K (filter dup text) d h v = state_of-Valid _ (dutils_filter_write-Valid K dup text d h v)
call-Valid K output d h v = dutils_output_read-Valid K d empty_seq v
call-Valid K (round_stats now part part0) d h v =
    Valid-if d.armed (λ _. on_part_round_stats_ent-Valid K now part part0 d v) (λ _. v)

then_do-Valid :
    (f : Disk → Option Disk) (o : Option Disk)
    → ((e : Disk) → Valid e → ValidState (f e))
    → ValidState o
    → ValidState (then_do f o)
then_do-Valid f none h w = tt
then_do-Valid f (some e) h w = h e w

-- Any calls in any order, with texts without NUL, keep the invariant of the data, unless one of
-- them ran past the array of names: the index is in range, each name in use is not empty and ends
-- inside its slot, and the probe is on only while the event is enabled.
pub calls-Valid :
    (K : Kernel) (cs : List Call) (d : Disk) → All IsCall cs → Valid d → ValidState (calls K cs d)
unfolding calls
calls-Valid K [] d h v = v
calls-Valid K (c ∷ cs) d (h, hs) v =
    then_do-Valid (calls K cs) (call K c d) (λ e. calls-Valid K cs e hs) (call-Valid K c d h v)
