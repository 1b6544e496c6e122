-- ===== src/Tracer/Tx/Spec.antt =====
-- What `tx_stat` promises: a set of pids, a counter for each, and two flags, without a bitmap, without
-- a flag for each probe, and without a buffer; and what each call may answer and change.
use mathlib.Core.List.{map}
use w_perf_archived.Base.{
  ℕ, ◌+◌, ◌%◌, ◌^◌, ◌≡◌, ◌≢◌, Bool, true, false, ◌&&◌, Option, none, some, List, [], ◌∷◌, ◌++◌,
  if◌then◌else◌,
}
use w_perf_archived.Tracer.Kernel.{Kernel, Errno, Seq, value, bad, Ret, ok, fail, enomem, einval}
use w_perf_archived.Tracer.Tx.{update}
use w_perf_archived.Tracer.Tx.Pids.{Pids, pids_of, member, add_list}
use w_perf_archived.Tracer.Tx.Count.{Send}
use w_perf_archived.Tracer.Tx.Filter.{PidsOf}
use w_perf_archived.Tracer.Tx.Print.{Listed, set_bits}
use w_perf_archived.Tracer.Tx.Calls.{Call, enable, filter, output, sent}

pub record Watch : Type 0 where
  pub watched : Pids
  pub bytes : ℕ → ℕ
  pub enabled : Bool
  pub counting : Bool

-- What a call gives back: a result, a text, or nothing.
pub data Reply : Type 0 where
  returned : Ret → Reply
  printed : Seq → Reply
  nothing : Reply

-- The lines of the pids that are watched, in increasing order.
abbrev pub counts : Kernel → Watch → List (List ℕ)
counts K w =
    map (λ n. K.dec n ++ b'=' ∷ K.ld (w.bytes n)) (set_bits (λ n. member n w.watched) K.pid_max)

-- The bytes of a send are counted while the event counts and the pid is watched.
abbrev pub counted : Send → Watch → Watch
counted s w =
    if w.counting && member s.pid w.watched
    then (record w { bytes = update w.bytes s.pid ((w.bytes s.pid + s.size) % 2 ^ 64) })
    else w

-- What a call may come to, with its reply and the state behind it; `none` is a write outside of the
-- bitmap.
pub data Allowed (K : Kernel) (w : Watch) : Call → Option (Reply × Watch) → Type 0 where
  disabling :
      {val : ℕ}
      → val % 256 ≡ 0
      → Allowed K w (enable val) (
          some
            (returned (ok 0), record w { watched = pids_of []; enabled = false; counting = false }))
  enabling :
      {val : ℕ}
      → val % 256 ≢ 0
      → Allowed K w
          (enable val)
          (some (returned (ok 0), record w { enabled = true; counting = true }))
  no_memory : {text : List ℕ} → Allowed K w (filter false text) (some (returned (fail enomem), w))
  adding :
      {text ps : List ℕ}
      → PidsOf K text ps none
      → Allowed K w (filter true text) (
          some
            (returned (ok 0), record w { watched = add_list ps w.watched; counting = w.enabled }))
  refusing :
      {text ps : List ℕ} {e : Errno}
      → PidsOf K text ps (some (bad e))
      → Allowed K w
          (filter true text)
          (some (returned (fail einval), record w { watched = pids_of []; counting = false }))
  overrunning :
      {text ps : List ℕ} {p : ℕ}
      → PidsOf K text ps (some (value p))
      → Allowed K w (filter true text) none
  printing :
      {s : Seq}
      → Listed (counts K w) (some s)
      → Allowed K w output (some (printed s, record w { counting = w.enabled }))
  sending : {s : Send} → Allowed K w (sent s) (some (nothing, counted s w))

-- What the calls of a list may come to, one after another, with all their replies.
pub data Runs (K : Kernel) : Watch → List Call → Option (List Reply × Watch) → Type 0 where
  done : {w : Watch} → Runs K w [] (some ([], w))
  stop : {w : Watch} {c : Call} {cs : List Call} → Allowed K w c none → Runs K w (c ∷ cs) none
  fall :
      {c : Call} {cs : List Call} {r : Reply} {w w' : Watch}
      → Allowed K w c (some (r, w'))
      → Runs K w' cs none
      → Runs K w (c ∷ cs) none
  next :
      {c : Call} {cs : List Call} {r : Reply} {rs : List Reply} {w w' w'' : Watch}
      → Allowed K w c (some (r, w'))
      → Runs K w' cs (some (rs, w''))
      → Runs K w (c ∷ cs) (some (r ∷ rs, w''))
