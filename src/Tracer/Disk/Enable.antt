-- ===== src/Tracer/Disk/Enable.antt =====
-- What a write to `enable` of `disk_utils` does to the counters.
use w_perf_archived.Base.{
  ℕ, zero, suc, ◌%◌, ◌<◌, ◌≤◌, ◌≡◌, refl, ◌∙◌, false, List, arith, length, get_or, get_or-set_self,
  get_or-set_ne,
}
use native.Mathlib.Decide.{ℕ_discrete}
use w_perf_archived.Tracer.Disk.{Disk, dutil, clear, dutils_enable_write}
use w_perf_archived.Tracer.Disk.Valid.{Valid, length-clear}

get_or-clear_lt :
    (n : ℕ) (counts : List ℕ) (i : ℕ) → i < n → n ≤ length counts → get_or (clear n counts) i 0 ≡ 0
unfolding clear
get_or-clear_lt zero counts i h k = elim h [ ]
get_or-clear_lt (suc n) counts i h k = elim (ℕ_discrete n i) [
  | yes e ↦ rw (← e) (get_or-set_self (clear n counts) n 0 0 (omega (arith, length-clear n counts)))
  | no ne ↦
      get_or-set_ne (clear n counts) n i 0 0 ne
      ∙ get_or-clear_lt n counts i (omega arith) (omega arith)
]

get_or-clear_ge :
    (n : ℕ) (counts : List ℕ) (i : ℕ) → n ≤ i → get_or (clear n counts) i 0 ≡ get_or counts i 0
unfolding clear
get_or-clear_ge zero counts i h = refl
get_or-clear_ge (suc n) counts i h =
    get_or-set_ne (clear n counts) n i 0 0 (λ e. omega arith)
    ∙ get_or-clear_ge n counts i (omega arith)

-- The state after "0": nothing is watched, the counters of the slots that were in use are zero and
-- the other counters are as they were, and the event and its probe are off.
pub record Cleared (d d' : Disk) : Type 0 where
  pub unwatched : d'.didx ≡ 0
  pub zeroed : (i : ℕ) → i < d.didx → dutil d' i ≡ 0
  pub left : (i : ℕ) → d.didx ≤ i → dutil d' i ≡ dutil d i
  pub disabled : d'.denabled ≡ false
  pub disarmed : d'.armed ≡ false

-- From a valid state, the number 0 (of the low byte of what is written) ends the watch: no name is
-- in use, the counters of the slots that were in use are zero and the other counters are as they
-- were, and the event and its probe are off.
pub dutils_enable_write-Cleared :
    (val : ℕ) (d : Disk) → Valid d → val % 256 ≡ 0 → Cleared d (dutils_enable_write val d).1
unfolding dutils_enable_write
dutils_enable_write-Cleared val d v h = rw h (record {
  unwatched = refl;
  zeroed = λ i p. get_or-clear_lt d.didx d.dutils i p (omega (arith, v.few, v.counters));
  left = λ i p. get_or-clear_ge d.didx d.dutils i p;
  disabled = refl;
  disarmed = refl;
})
