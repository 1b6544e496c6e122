-- ===== src/Recorder/Workers.antt =====
-- The helpers of the recorder, of recorder/ioworker.c: iostat for a disk and ifstat for a nic, each
-- with its output in a file.
pub mod Laws
use w_perf_archived.Base.{
  ℕ, zero, suc, ◌+◌, Bool, true, false, Option, none, some, List, [], ◌∷◌, ◌++◌, if◌then◌else◌, ltb,
  ◌==◌, length, set, replicate, get_or,
}
use w_perf_archived.Tracer.Text.{Bytes, codes}
use w_perf_archived.Recorder.Paths.{create_instance_output, get_instance_output}

-- What the helpers need of `struct config`.
pub record Config : Type 0 where
  pub disk_list : Option Bytes
  pub nic_list : Option Bytes
  pub output_dir : Bytes

-- `struct ioworker`: the arguments of the program, and the file that takes its output.
pub record Worker : Type 0 where
  pub args : Option (List Bytes)
  pub fd : ℕ

-- `argv` of the configuration and the workers of `struct recorder`; `spawned` are the places of the
-- workers that were given to `uv_spawn`, in this order.
pub record Workers : Type 0 where
  pub argv : List (Option (List Bytes))
  pub workers : List (Option Worker)
  pub worker_count : ℕ
  pub spawned : List ℕ

-- What libuv does: whether a directory is there after `mkdir`, the descriptor of a file that it
-- opens, and the result of the spawn of a worker.
pub record Host : Type 0 where
  pub mkdir : Bytes → Bool
  pub open_file : Bytes → Option ℕ
  pub spawn : ℕ → ℕ

-- Going on, behind `exit` or a failed `assert`, or after a write past an array.
pub data Outcome : Type 0 where
  going : Workers → Outcome
  stopped : Outcome
  undefined : Outcome

abbrev pub then_go : (Workers → Outcome) → Outcome → Outcome
then_go f (going w) = f w
then_go f stopped = stopped
then_go f undefined = undefined

abbrev pub cal_worker_count : ℕ → Option Bytes → ℕ
cal_worker_count count none = count
cal_worker_count count (some dev_list) = count + 1

-- `cf->argv[t] = args`.
abbrev pub set_argv : ℕ → List Bytes → Workers → Outcome
set_argv t args w =
    if ltb t (length w.argv)
    then going (record w { argv = set w.argv t (some args) })
    else undefined

unfoldable pub build_disk_worker_args : Option Bytes → Workers → Outcome
build_disk_worker_args none w = going w
build_disk_worker_args (some disk_list) w =
    set_argv 0 (codes "iostat" ∷ disk_list ∷ codes "-d" ∷ codes "1" ∷ []) w

unfoldable pub build_nic_worker_args : Option Bytes → Workers → Outcome
build_nic_worker_args none w = going w
build_nic_worker_args (some nic_list) w = set_argv 1 (codes "ifstat" ∷ codes "-i" ∷ nic_list ∷ []) w

-- The worker at the next place, behind the open of its file.
abbrev pub add_worker : ℕ → Option ℕ → Workers → Outcome
add_worker t none w = stopped
add_worker t (some fd) w =
    let worker : Worker = record { args = get_or w.argv t none; fd = fd } in
    if ltb w.worker_count (length w.workers)
    then going (record w {
      workers = set w.workers w.worker_count (some worker);
      worker_count = w.worker_count + 1;
      spawned = w.spawned ++ w.worker_count ∷ [];
    })
    else undefined

-- `iotype` is 0 for DISK and 1 for NIC. The result of this spawn is not looked at.
unfoldable pub __setup_ioworkers : Host → Bytes → Option Bytes → ℕ → Workers → Outcome
__setup_ioworkers host output_dir none t w = going w
__setup_ioworkers host output_dir (some dlist) t w =
    if host.mkdir (create_instance_output output_dir dlist)
    then add_worker t (host.open_file (get_instance_output output_dir dlist)) w
    else stopped

-- The two allocations of `setup_ioworkers` for `n` workers, and what follows each.
abbrev pub allocate_argv : ℕ → Workers → Workers
allocate_argv n w = record w { argv = replicate n none }

abbrev pub allocate_workers : ℕ → Workers → Outcome
allocate_workers n w = going (record w { workers = replicate n none })

unfoldable pub setup_ioworkers : Host → Config → Workers → Outcome
unfolding build_disk_worker_args build_nic_worker_args __setup_ioworkers
setup_ioworkers host cf w =
    let n = cal_worker_count (cal_worker_count 0 cf.disk_list) cf.nic_list in
    if n == 0
    then going w
    else then_go (__setup_ioworkers host cf.output_dir cf.nic_list 1) (
        then_go (__setup_ioworkers host cf.output_dir cf.disk_list 0) (
          then_go (allocate_workers n) (
            then_go (build_nic_worker_args cf.nic_list)
              (build_disk_worker_args cf.disk_list (allocate_argv n w)))))

-- The loop of `record_ioworkers`, with `n` workers left; the Boolean tells whether it returned 0.
unfoldable pub spawn_down : Host → ℕ → Workers → Bool × Workers
spawn_down host zero w = (true, w)
spawn_down host (suc n) w =
    let w = record w { spawned = w.spawned ++ n ∷ [] } in
    let rest = spawn_down host n w in if host.spawn n == 0 then rest else (false, w)

unfoldable pub record_ioworkers : Host → Workers → Bool × Workers
unfolding spawn_down
record_ioworkers host w = spawn_down host w.worker_count w

-- What has been closed when helpers end: the descriptors of files, and the process handles, by the
-- places of their workers.
pub record Closed : Type 0 where
  pub files : List ℕ
  pub handles : List ℕ

abbrev pub close_worker : ℕ → Option Worker → Closed → Option Closed
close_worker i none c = none
close_worker i (some worker) c =
    some (record { files = c.files ++ worker.fd ∷ []; handles = c.handles ++ i ∷ [] })

-- The callback at the end of the process of worker `i`; `none` where there is no such worker.
unfoldable pub close_process_handle : ℕ → Workers → Closed → Option Closed
close_process_handle i w c = close_worker i (get_or w.workers i none) c

-- `recorder_run` sets `worker_count` to 0.
abbrev pub no_workers : Workers
no_workers = record { argv = []; workers = []; worker_count = 0; spawned = [] }
