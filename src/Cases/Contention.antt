-- ===== src/Cases/Contention.antt =====
-- The two threads of cases/lock-contention-with-sleep/main.c and cases/lock-contention-with-spin/main.c
-- that share `counter`: B takes from it in `dec_counter` and sleeps while it is 0, C adds to it in
-- `inc_counter` and wakes B.
-- A step is what a thread does between two points where the other can run: one statement, under
-- `counter_lock` or around it. `none` means that the thread cannot go on. The delay of C,
-- a sleep or a loop that counts, changes nothing but the time.
pub mod Safe
pub mod Invariant
pub mod Progress
use w_perf_archived.Base.{
  ℕ, ◌+◌, ◌-◌, ◌%◌, ◌^◌, Bool, true, false, Option, none, some, ◌==◌, if◌then◌else◌,
}

-- Where B stands; `asleep` is inside `pthread_cond_wait`, `woken` is behind the wake-up and before
-- the lock is taken again.
pub data PcB : Type 0 where
  outside checking asleep woken notifying taking leaving : PcB

-- Where C stands.
pub data PcC : Type 0 where
  outside wrapping testing waking adding leaving : PcC

pub data Owner : Type 0 where
  nobody thread_b thread_c : Owner

pub record State : Type 0 where
  pub counter : ℕ
  pub owner : Owner
  pub pc_b : PcB
  pub pc_c : PcC
  pub signals : ℕ  -- those to `wait_cond`

abbrev pub lock_from : Owner → Owner → State → Option State
lock_from Owner.nobody by s = some (record s { owner = by })
lock_from _ by s = none

-- `pthread_mutex_lock(&counter_lock)`.
abbrev pub lock : Owner → State → Option State
lock by s = lock_from s.owner by s

-- `dec_counter`, from where B stands.
unfoldable pub dec_counter_at : PcB → State → Option State
dec_counter_at PcB.outside s = lock Owner.thread_b (record s { pc_b = PcB.checking })
dec_counter_at PcB.checking s =
    if s.counter == 0
    then some (record s { pc_b = PcB.asleep; owner = Owner.nobody })
    else some (record s { pc_b = PcB.taking })
dec_counter_at PcB.asleep s = none
dec_counter_at PcB.woken s = lock Owner.thread_b (record s { pc_b = PcB.notifying })
dec_counter_at PcB.notifying s = some (record s { pc_b = PcB.checking; signals = s.signals + 1 })
dec_counter_at PcB.taking s =
    some (record s { counter = (s.counter + (2 ^ 32 - 1)) % 2 ^ 32; pc_b = PcB.leaving })
dec_counter_at PcB.leaving s = some (record s { owner = Owner.nobody; pc_b = PcB.outside })

abbrev pub wake : PcB → PcB
wake PcB.asleep = PcB.woken
wake pc = pc

-- `inc_counter`, from where C stands.
unfoldable pub inc_counter_at : PcC → State → Option State
inc_counter_at PcC.outside s = lock Owner.thread_c (record s { pc_c = PcC.wrapping })
inc_counter_at PcC.wrapping s =
    some (record s { counter = if s.counter == 10000 then 0 else s.counter; pc_c = PcC.testing })
inc_counter_at PcC.testing s =
    some (record s { pc_c = if s.counter == 0 then PcC.waking else PcC.adding })
inc_counter_at PcC.waking s = some (record s { pc_b = wake s.pc_b; pc_c = PcC.adding })
inc_counter_at PcC.adding s =
    some (record s { counter = (s.counter + 1) % 2 ^ 32; pc_c = PcC.leaving })
inc_counter_at PcC.leaving s = some (record s { owner = Owner.nobody; pc_c = PcC.outside })

unfoldable pub dec_counter : State → Option State
unfolding dec_counter_at
dec_counter s = dec_counter_at s.pc_b s

unfoldable pub inc_counter : State → Option State
unfolding inc_counter_at
inc_counter s = inc_counter_at s.pc_c s

-- `pthread_cond_wait` may also return without a signal.
unfoldable pub spurious : State → State
spurious s = record s { pc_b = wake s.pc_b }

abbrev pub start : State
start = record {
  counter = 0;
  owner = Owner.nobody;
  pc_b = PcB.outside;
  pc_c = PcC.outside;
  signals = 0;
}
