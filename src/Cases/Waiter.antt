-- ===== src/Cases/Waiter.antt =====
-- The thread A of cases/lock-contention-with-sleep/main.c and cases/lock-contention-with-spin/main.c, which
-- waits for the signals of B and counts behind each.
-- `none` is a step that cannot be taken: A sleeps, or the call is undefined, as that of
-- `pthread_cond_wait` is for a thread that does not hold the lock it passes.
use w_perf_archived.Base.{
  ℕ, zero, suc, ◌+◌, ◌≡◌, refl, Bool, false, Option, none, some, ltb, if◌then◌else◌, arith, le→ltb,
  lt→ltb,
}

-- Where A stands; `counting i` is before the test of round `i`.
pub data PcA : Type 0 where
  calling asleep woken : PcA
  counting : ℕ → PcA

-- The next step of `thread_wait`, where `owns` tells whether A holds `wait_lock`.
unfoldable pub thread_wait : ℕ → Bool → PcA → Option PcA
thread_wait max owns PcA.calling = if owns then some PcA.asleep else none
thread_wait max owns PcA.asleep = none
thread_wait max owns PcA.woken = some (PcA.counting 0)
thread_wait max owns (PcA.counting i) =
    if ltb i max then some (PcA.counting (i + 1)) else some PcA.calling

-- `n` steps of A.
unfoldable pub waits : ℕ → Bool → ℕ → Option PcA → Option PcA
unfolding thread_wait
waits max owns n none = none
waits max owns zero (some pc) = some pc
waits max owns (suc n) (some pc) = waits max owns n (thread_wait max owns pc)

-- From round `i` of the loop on, A comes back to its call.
counting-ends :
    (max : ℕ) (owns : Bool) (n i : ℕ)
    → i + n ≡ max
    → waits max owns (suc n) (some (PcA.counting i)) ≡ some PcA.calling
unfolding waits thread_wait
counting-ends max owns zero i h = rw (le→ltb i max (omega arith), waits) refl
counting-ends max owns (suc n) i h =
    rw (lt→ltb i max (omega arith), waits) (counting-ends max owns n (i + 1) (omega arith))

counting-stops :
    (max n i : ℕ) → i + n ≡ max → waits max false (suc (suc n)) (some (PcA.counting i)) ≡ none
unfolding waits thread_wait
counting-stops max zero i h = rw (le→ltb i max (omega arith), waits) refl
counting-stops max (suc n) i h =
    rw (lt→ltb i max (omega arith), waits) (counting-stops max n (i + 1) (omega arith))

-- Behind each wake-up A counts to the end and is back at its call, which is where it stops for good
-- without the lock.
pub waits-undefined :
    (max : ℕ)
    → (waits max false (suc (suc max)) (some PcA.woken) ≡ some PcA.calling)
      × (waits max false (suc (suc (suc max))) (some PcA.woken) ≡ none)
unfolding waits thread_wait
waits-undefined max =
    (counting-ends max false max 0 (omega arith), counting-stops max max 0 (omega arith))
