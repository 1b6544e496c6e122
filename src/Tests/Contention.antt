-- ===== src/Tests/Contention.antt =====
-- The two threads where B sleeps.
use w_perf_archived.Cases.Program.{
  create_thread, thread_main, main_runs, thread_runs, ProgramReach, begun, then_step, GoesOn,
  ProgramReach-GoesOn,
}
use w_perf_archived.Base.{arith, ◌≡◌, refl, some}
use w_perf_archived.Cases.Contention.{
  PcB, PcC, Owner, State, dec_counter, inc_counter, dec_counter_at, inc_counter_at, start,
}
use w_perf_archived.Cases.Contention.Safe.{Reach, here, next, b_runs, c_runs, Safe}
use w_perf_archived.Cases.Contention.Invariant.{Reach-Safe}
use w_perf_archived.Cases.Contention.Progress.{steps, Reach-woken}

-- B has found 0 and sleeps.
abbrev sleeping : State
sleeping = record start { pc_b = PcB.asleep }

sleeping-Reach : Reach sleeping
unfolding dec_counter dec_counter_at
sleeping-Reach = next (next here (b_runs refl)) (b_runs refl)

-- C has taken the lock behind it.
abbrev entered : State
entered = record sleeping { owner = Owner.thread_c; pc_c = PcC.wrapping }

entered-Reach : Reach entered
unfolding inc_counter inc_counter_at
entered-Reach = next sleeping-Reach (c_runs refl)

Reach-Safe_example : Safe entered
Reach-Safe_example = Reach-Safe entered-Reach

Reach-woken_example :
    steps dec_counter 5 (steps inc_counter 6 (some sleeping)) ≡ some (record start { signals = 1 })
Reach-woken_example = Reach-woken sleeping-Reach refl refl

-- B is created, finds 0 and sleeps, before C is created.
slept_alone : ProgramReach (record { state = sleeping; created = 2 })
unfolding create_thread thread_main dec_counter dec_counter_at
slept_alone =
    then_step
      (then_step (then_step (then_step begun (main_runs refl)) (thread_runs 0 (omega arith) refl))
        (thread_runs 0 (omega arith) refl))
      (main_runs refl)

ProgramReach-GoesOn_example : Safe sleeping × GoesOn (record { state = sleeping; created = 2 })
ProgramReach-GoesOn_example = ProgramReach-GoesOn slept_alone
