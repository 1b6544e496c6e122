-- ===== src/Cases/Contention/Progress.antt =====
-- That the two threads go on: no deadlock, and no wake-up that is lost.
use w_perf_archived.Base.{
  ℕ, zero, suc, ◌+◌, ◌≡◌, ◌∙◌, ◌⊎◌, refl, ap, Bool, true, false, Option, none, some, ◌==◌,
  if◌then◌else◌, inl, inr,
}
use w_perf_archived.Cases.Contention.{
  PcB, PcC, Owner, State, dec_counter_at, inc_counter_at, dec_counter, inc_counter,
}
use w_perf_archived.Cases.Contention.Safe.{Safe, Reach, b_holds, c_holds, is_b, is_c, not_c_holds}
use w_perf_archived.Cases.Contention.Invariant.{Reach-Safe}

if_some : (b : Bool) (x y : State) → (t : State) × ((if b then some x else some y) ≡ some t)
if_some true x y = (x, refl)
if_some false x y = (y, refl)

holder_b_runs :
    (pc : PcB) (s : State) → b_holds pc ≡ true → (t : State) × (dec_counter_at pc s ≡ some t)
unfolding dec_counter_at
holder_b_runs PcB.outside s h = cc
holder_b_runs PcB.checking s h = if_some (s.counter == 0) _ _
holder_b_runs PcB.asleep s h = cc
holder_b_runs PcB.woken s h = cc
holder_b_runs PcB.notifying s h = (_, refl)
holder_b_runs PcB.taking s h = (_, refl)
holder_b_runs PcB.leaving s h = (_, refl)

holder_c_runs :
    (pc : PcC) (s : State) → c_holds pc ≡ true → (t : State) × (inc_counter_at pc s ≡ some t)
unfolding inc_counter_at
holder_c_runs PcC.outside s h = cc
holder_c_runs PcC.wrapping s h = (_, refl)
holder_c_runs PcC.testing s h = (_, refl)
holder_c_runs PcC.waking s h = (_, refl)
holder_c_runs PcC.adding s h = (_, refl)
holder_c_runs PcC.leaving s h = (_, refl)

c_enters :
    (s : State)
    → s.pc_c ≡ PcC.outside
    → s.owner ≡ Owner.nobody
    → (t : State) × (inc_counter s ≡ some t)
unfolding inc_counter inc_counter_at
c_enters s e o = (record s { owner = Owner.thread_c; pc_c = PcC.wrapping }, rw (e, o) refl)

runs :
    (o : Owner) (s : State)
    → s.owner ≡ o
    → Safe s
    → (t : State) × ((dec_counter s ≡ some t) ⊎ (inc_counter s ≡ some t))
unfolding dec_counter inc_counter
runs Owner.nobody s e i =
    let (t, h) = c_enters s (not_c_holds s.pc_c (i.c_owns ∙ ap is_c e)) e in (t, inr h)
runs Owner.thread_b s e i = let (t, h) = holder_b_runs s.pc_b s (i.b_owns ∙ ap is_b e) in (t, inl h)
runs Owner.thread_c s e i = let (t, h) = holder_c_runs s.pc_c s (i.c_owns ∙ ap is_c e) in (t, inr h)

-- The threads never stop each other: in every state that they can reach, one of them can go on.
pub Reach-runs :
    {s : State} → Reach s → (t : State) × ((dec_counter s ≡ some t) ⊎ (inc_counter s ≡ some t))
Reach-runs {s} r = runs s.owner s refl (Reach-Safe r)

-- One thread runs `n` steps.
unfoldable pub steps : (State → Option State) → ℕ → Option State → Option State
steps f n none = none
steps f zero (some s) = some s
steps f (suc n) (some s) = steps f n (f s)

-- In every state that the threads can reach where B sleeps and the lock is free, one pass of C
-- through `inc_counter` wakes B, which then ends its `dec_counter`: the counter is 0 again, both
-- threads are outside, the lock is free, and A is signalled once.
pub Reach-woken :
    {s : State}
    → Reach s
    → s.pc_b ≡ PcB.asleep
    → s.owner ≡ Owner.nobody
    → steps dec_counter 5 (steps inc_counter 6 (some s))
      ≡ some (record s {
        counter = 0;
        pc_b = PcB.outside;
        pc_c = PcC.outside;
        owner = Owner.nobody;
        signals = s.signals + 1;
      })
unfolding steps dec_counter inc_counter dec_counter_at inc_counter_at
Reach-woken {s} r e o =
    let i = Reach-Safe r in
    let out = not_c_holds s.pc_c (i.c_owns ∙ ap is_c o) in
    let zero_counter : s.counter ≡ 0 = (rw e at i.relies).0 in rw (out, o, zero_counter, e) refl
