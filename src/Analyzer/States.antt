-- ===== src/Analyzer/States.antt =====
-- The switch events of a trace, and the state of each process before it, of
-- analyzer/src/analyzer/lib/events/switch.go and analyzer/src/analyzer/lib/process/process.go.
-- A map of Go from pids is a function into `Option`. `none` as a result is a panic.
pub mod Laws
use w_perf_archived.Base.{
  ℕ, ℤ, pos, negsuc, ◌==ℤ◌, Bool, true, false, Option, none, some, List, [], ◌∷◌, ◌==◌,
  if◌then◌else◌,
}
use w_perf_archived.Tracer.Text.{Bytes}

pub record Switch : Type 0 where
  pub cpu : ℤ
  pub time : ℕ
  pub type : ℤ
  pub prev_pid : ℤ
  pub next_pid : ℤ
  pub prev_state : ℕ
  pub next_state : ℕ
  pub prev_comm : Bytes
  pub next_comm : Bytes
  pub in_which_ctx : ℤ

abbrev pub running : ℤ
running = pos 0

abbrev pub runnable : ℤ
runnable = pos 1

abbrev pub blocked : ℤ
blocked = pos 2

-- The marks of `in_which_ctx`.
abbrev pub process : ℤ
process = pos 12

abbrev pub unknown : ℤ
unknown = pos 13

-- `NONE`.
abbrev pub nobody : ℤ
nobody = pos 0

pub record PrevState : Type 0 where
  pub timestamp : ℕ
  pub state : ℤ

unfoldable pub update_to_running : ℕ → PrevState → PrevState
update_to_running time p = record { state = running; timestamp = time }

unfoldable pub update_to_runnable : ℕ → PrevState → PrevState
update_to_runnable time p = record { state = runnable; timestamp = time }

unfoldable pub update_to_stopped : ℕ → PrevState → PrevState
update_to_stopped time p = record { state = blocked; timestamp = time }

abbrev pub is_runnable : ℕ → Bool
is_runnable state = state == 0

abbrev pub Map : Type 0 → Type 0
Map A = ℤ → Option A

-- `m[k] = v`
abbrev pub set_key {ℓ} : {A : Type ℓ} → (ℤ → Option A) → ℤ → A → ℤ → Option A
set_key m k v j = if k ==ℤ j then some v else m j

abbrev pub or_else {ℓ} : {A : Type ℓ} → Option A → A → A
or_else none d = d
or_else (some a) d = a

-- `createTimeList`, `exitTimeList` and `prevStateMap`.
pub record States : Type 0 where
  pub create_time : Map ℕ
  pub exit_time : Map ℕ
  pub prev_state : Map PrevState

abbrev pub no_states : States
no_states = record { create_time = λ p. none; exit_time = λ p. none; prev_state = λ p. none }

-- The first loop of `PrevStateMap.Init`.
unfoldable pub collect_times : List Switch → States → States
collect_times [] s = s
collect_times (v ∷ vs) s = collect_times vs (
    if v.type ==ℤ pos 2
    then (record s { create_time = set_key s.create_time v.next_pid v.time })
    else if v.type ==ℤ pos 3
    then (record s { exit_time = set_key s.exit_time v.prev_pid v.time })
    else s)

-- The time of the last event; `d` where there is none.
unfoldable pub last_time : ℕ → List Switch → ℕ
last_time d [] = d
last_time d (v ∷ vs) = last_time v.time vs

-- One round of the second loop: two assignments to one key.
unfoldable pub init_pid : ℕ → ℕ → ℤ → States → States
init_pid trace_stime trace_etime v s =
    let first : PrevState = record {
      timestamp = or_else (s.create_time v) trace_stime;
      state = negsuc 0;
    } in
    let second : PrevState = record {
      timestamp = or_else (s.exit_time v) trace_etime;
      state = negsuc 0;
    } in
    record s { prev_state = set_key (set_key s.prev_state v first) v second }

unfoldable pub init_pids : ℕ → ℕ → List ℤ → States → States
unfolding init_pid
init_pids trace_stime trace_etime [] s = s
init_pids trace_stime trace_etime (v ∷ pl) s =
    init_pids trace_stime trace_etime pl (init_pid trace_stime trace_etime v s)

-- `sl[0]` of an empty list is a panic.
unfoldable pub init_prev_states : List ℤ → List Switch → States → Option States
unfolding collect_times init_pids last_time
init_prev_states pl [] s = none
init_prev_states pl (v ∷ vs) s =
    some (init_pids v.time (last_time v.time vs) pl (collect_times (v ∷ vs) s))

-- A key that is not in the map gives the zero value.
unfoldable pub get_prev_state : States → ℤ → PrevState
get_prev_state s pid = or_else (s.prev_state pid) (record { timestamp = 0; state = pos 0 })

-- `CommMap`: the first name that the trace has for a pid.
abbrev pub add_comm : ℤ → Bytes → Map Bytes → Map Bytes
add_comm pid comm c = elim (c pid) [ none ↦ set_key c pid comm | some _ ↦ c ]

unfoldable pub init_comm_map : List Switch → Map Bytes → Map Bytes
init_comm_map [] c = c
init_comm_map (v ∷ vs) c =
    init_comm_map vs (add_comm v.next_pid v.next_comm (add_comm v.prev_pid v.prev_comm c))

unfoldable pub get_comm : Map Bytes → ℤ → Bytes
get_comm c pid = or_else (c pid) []
