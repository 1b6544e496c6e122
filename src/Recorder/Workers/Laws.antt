-- ===== src/Recorder/Workers/Laws.antt =====
-- What the set-up of the helpers comes to.
use w_perf_archived.Base.{
  ℕ, ◌+◌, ◌≡◌, ◌∙◌, refl, ap, Bool, true, Option, none, some, List, [], ◌∷◌, ◌++◌, append-nil,
  append_assoc, zero, suc, sym, if◌then◌else◌, ◌==◌, ltb, arith,
}
use w_perf_archived.Tracer.Text.{Bytes, codes}
use w_perf_archived.Recorder.Paths.{get_instance_output}
use w_perf_archived.Recorder.Workers.{
  Worker, Workers, Host, Outcome, going, undefined, setup_ioworkers, record_ioworkers, no_workers,
  spawn_down,
}

-- A host on which directories are made, files are opened with the descriptors `fd`, and helpers
-- start.
pub record IsReady (host : Host) (fd : Bytes → ℕ) : Type 0 where
  pub mkdir : (f : Bytes) → host.mkdir f ≡ true
  pub open_file : (f : Bytes) → host.open_file f ≡ some (fd f)
  pub spawn : (i : ℕ) → host.spawn i ≡ 0

abbrev pub iostat : Bytes → List Bytes
iostat disks = codes "iostat" ∷ disks ∷ codes "-d" ∷ codes "1" ∷ []

abbrev pub ifstat : Bytes → List Bytes
ifstat nics = codes "ifstat" ∷ codes "-i" ∷ nics ∷ []

module _ (host : Host) (fd : Bytes → ℕ) (ready : IsReady host fd) (out : Bytes) where
  abbrev worker_of : List Bytes → Bytes → Worker
  worker_of args list = record { args = some args; fd = fd (get_instance_output out list) }

  -- The workers that the lists ask for; a nic alone is not served.
  abbrev pub expected : Option Bytes → Option Bytes → Outcome
  expected none none = going no_workers
  expected none (some n) = undefined
  expected (some d) none = going (record {
    argv = some (iostat d) ∷ [];
    workers = some (worker_of (iostat d) d) ∷ [];
    worker_count = 1;
    spawned = 0 ∷ [];
  })
  expected (some d) (some n) = going (record {
    argv = some (iostat d) ∷ some (ifstat n) ∷ [];
    workers = some (worker_of (iostat d) d) ∷ some (worker_of (ifstat n) n) ∷ [];
    worker_count = 2;
    spawned = 0 ∷ 1 ∷ [];
  })

  -- On a host where directories are made, files opened and helpers started, for every choice of
  -- lists: no list gives no worker; a disk alone, or a disk and a nic, give iostat, and ifstat,
  -- each with its arguments and its file, at places 0 and 1, and each is spawned; a nic alone is
  -- written past the array of arguments.
  pub setup_ioworkers-expected :
      (disk_list nic_list : Option Bytes)
      → setup_ioworkers host
          (record { disk_list = disk_list; nic_list = nic_list; output_dir = out })
          no_workers
        ≡ expected disk_list nic_list
  unfolding setup_ioworkers
  setup_ioworkers-expected none none = refl
  setup_ioworkers-expected none (some n) = refl
  setup_ioworkers-expected (some d) none = rw (ready.mkdir, ready.open_file) refl
  setup_ioworkers-expected (some d) (some n) =
      rw (ready.mkdir, ready.open_file, ready.mkdir, ready.open_file) refl

-- The places below `n`, from the last to the first.
abbrev pub down : ℕ → List ℕ
down zero = []
down (suc n) = n ∷ down n

spawn_down-all :
    (host : Host) (n : ℕ) (w : Workers)
    → ((i : ℕ) → host.spawn i ≡ 0)
    → spawn_down host n w ≡ (true, record w { spawned = w.spawned ++ down n })
unfolding spawn_down
spawn_down-all host zero w h =
    ap (λ l. (true, record w { spawned = l })) (sym (append-nil w.spawned))
spawn_down-all host (suc n) w h = rw h (
    spawn_down-all host n (record w { spawned = w.spawned ++ n ∷ [] }) h
    ∙ ap (λ l. (true, record w { spawned = l })) (append_assoc w.spawned (n ∷ []) (down n)))

-- How often a place is among those that were spawned.
abbrev pub times : ℕ → List ℕ → ℕ
times i [] = 0
times i (j ∷ js) = (if i == j then 1 else 0) + times i js

twice_one : (i : ℕ) → times i (0 ∷ 0 ∷ []) ≡ (if ltb i 1 then 2 else 0)
twice_one i = ground arith

twice_two : (i : ℕ) → times i (0 ∷ 1 ∷ 1 ∷ 0 ∷ []) ≡ (if ltb i 2 then 2 else 0)
twice_two i = ground arith

pub all_spawned :
    (host : Host) (w : Workers)
    → ((i : ℕ) → host.spawn i ≡ 0)
    → record_ioworkers host w ≡ (true, record w { spawned = w.spawned ++ down w.worker_count })
unfolding record_ioworkers
all_spawned host w h = spawn_down-all host w.worker_count w h

module _ (host : Host) (fd : Bytes → ℕ) (ready : IsReady host fd) (out d : Bytes) where
  -- On a host where all succeeds, with a list of disks and with or without a list of nics:
  -- `record_ioworkers` after `setup_ioworkers` ends with 0, and each worker has been spawned twice.
  pub record_ioworkers-twice :
      (nic_list : Option Bytes)
      → (w : Workers) × (setup_ioworkers host
            (record { disk_list = some d; nic_list = nic_list; output_dir = out })
            no_workers
          ≡ going w)
        × ((record_ioworkers host w).0 ≡ true)
        × ((i : ℕ)
            → times i (record_ioworkers host w).1.spawned ≡ (if ltb i w.worker_count then 2 else 0))
  record_ioworkers-twice none =
      let e = setup_ioworkers-expected host fd ready out (some d) none in
      (
        _,
        e,
        ap (λ (r : Bool × Workers). r.0) (all_spawned host _ ready.spawn),
        λ i. rw (all_spawned host _ ready.spawn) (twice_one i),
      )
  record_ioworkers-twice (some n) =
      let e = setup_ioworkers-expected host fd ready out (some d) (some n) in
      (
        _,
        e,
        ap (λ (r : Bool × Workers). r.0) (all_spawned host _ ready.spawn),
        λ i. rw (all_spawned host _ ready.spawn) (twice_two i),
      )
