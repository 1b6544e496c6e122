-- ===== src/Cases/Contention/Invariant.antt =====
-- What holds of the two threads in every state that they can reach.
use mathlib.Core.Path.{subst}
use w_perf_archived.Base.{◌≡◌, ◌∙◌, sym, refl, ap, Option, some, ◌==◌, arith, inl, inr, Bool-cases}
use w_perf_archived.Cases.Contention.{
  PcB, PcC, Owner, State, dec_counter_at, inc_counter_at, dec_counter, inc_counter, spurious,
}
use w_perf_archived.Cases.Contention.Safe.{
  Step, b_runs, c_runs, b_returns, Reach, here, next, b_holds, c_holds, is_b, is_c, will_wake, Safe,
  Kept, Kept-lock_from, b_alone, b_holds-wake, Relies-change, Relies-wake, Relies-wake_any, c_alone,
}

dec_counter_at-Safe : (pc : PcB) (s : State) → s.pc_b ≡ pc → Safe s → Kept (dec_counter_at pc s)
unfolding dec_counter_at
dec_counter_at-Safe PcB.outside s e i =
    Kept-lock_from s.owner Owner.thread_b (record s { pc_b = PcB.checking })
      (λ o. record { b_owns = refl; c_owns = i.c_owns ∙ ap is_c o; range = i.range; relies = tt })
dec_counter_at-Safe PcB.checking s e i =
    let (own, out) = b_alone s i (ap b_holds e) in
    elim (Bool-cases (s.counter == 0)) [
      | inl z ↦ rw z (record {
        b_owns = refl;
        c_owns = ap c_holds out;
        range = i.range;
        relies = (ground arith, ap will_wake out);
      })
      | inr z ↦ rw z (record {
        b_owns = ap is_b (sym own);
        c_owns = i.c_owns;
        range = i.range;
        relies = ground arith;
      })
    ]
dec_counter_at-Safe PcB.asleep s e i = tt
dec_counter_at-Safe PcB.woken s e i =
    Kept-lock_from s.owner Owner.thread_b (record s { pc_b = PcB.notifying })
      (λ o. record { b_owns = refl; c_owns = i.c_owns ∙ ap is_c o; range = i.range; relies = tt })
dec_counter_at-Safe PcB.notifying s e i = record {
  b_owns = sym (ap b_holds e) ∙ i.b_owns;
  c_owns = i.c_owns;
  range = i.range;
  relies = tt;
}
dec_counter_at-Safe PcB.taking s e i =
    let (own, out) = b_alone s i (ap b_holds e) in
    record {
      b_owns = sym (ap b_holds e) ∙ i.b_owns;
      c_owns = i.c_owns;
      range = rw out (omega (arith, rw out at i.range, rw e at i.relies));
      relies = tt;
    }
dec_counter_at-Safe PcB.leaving s e i =
    let (own, out) = b_alone s i (ap b_holds e) in
    record { b_owns = refl; c_owns = ap c_holds out; range = i.range; relies = tt }

inc_counter_at-Safe : (pc : PcC) (s : State) → s.pc_c ≡ pc → Safe s → Kept (inc_counter_at pc s)
unfolding inc_counter_at
inc_counter_at-Safe PcC.outside s e i =
    Kept-lock_from s.owner Owner.thread_c (record s { pc_c = PcC.wrapping })
      (λ o. record {
        b_owns = i.b_owns ∙ ap is_b o;
        c_owns = refl;
        range = rw e at i.range;
        relies =
            Relies-change s.pc_b s.pc_c _ s.counter _ (i.b_owns ∙ ap is_b o) (λ a r. (r.0, refl))
              i.relies;
      })
inc_counter_at-Safe PcC.wrapping s e i =
    let free = c_alone s i (ap c_holds e) in
    record {
      b_owns = i.b_owns;
      c_owns = sym (ap c_holds e) ∙ i.c_owns;
      range = ground (arith, rw e at i.range);
      relies =
          Relies-change s.pc_b s.pc_c _ s.counter _ free (λ a r. (ground (arith, r.0), refl))
            i.relies;
    }
inc_counter_at-Safe PcC.testing s e i =
    let free = c_alone s i (ap c_holds e) in
    elim (Bool-cases (s.counter == 0)) [
      | inl z ↦ rw z (record {
        b_owns = i.b_owns;
        c_owns = sym (ap c_holds e) ∙ i.c_owns;
        range = ground arith;
        relies = Relies-change s.pc_b s.pc_c _ s.counter _ free (λ a r. (r.0, refl)) i.relies;
      })
      | inr z ↦ rw z (record {
        b_owns = i.b_owns;
        c_owns = sym (ap c_holds e) ∙ i.c_owns;
        range = rw e at i.range;
        relies =
            Relies-change s.pc_b s.pc_c _ s.counter _ free (λ a r. absurd (ground (arith, r.0)))
              i.relies;
      })
    ]
inc_counter_at-Safe PcC.waking s e i =
    let free = c_alone s i (ap c_holds e) in
    record {
      b_owns = b_holds-wake s.pc_b ∙ i.b_owns;
      c_owns = sym (ap c_holds e) ∙ i.c_owns;
      range = omega (arith, rw e at i.range);
      relies = Relies-wake s.pc_b _ s.counter free;
    }
inc_counter_at-Safe PcC.adding s e i =
    let free = c_alone s i (ap c_holds e) in
    record {
      b_owns = i.b_owns;
      c_owns = sym (ap c_holds e) ∙ i.c_owns;
      range = omega (arith, rw e at i.range);
      relies = Relies-change s.pc_b s.pc_c _ s.counter _ free (λ a r. cc) i.relies;
    }
inc_counter_at-Safe PcC.leaving s e i =
    let free = c_alone s i (ap c_holds e) in
    record {
      b_owns = free;
      c_owns = refl;
      range = rw e at i.range;
      relies = Relies-change s.pc_b s.pc_c _ s.counter _ free (λ a r. (r.0, refl)) i.relies;
    }

spurious-Safe : (s : State) → Safe s → Safe (spurious s)
unfolding spurious
spurious-Safe s i = record {
  b_owns = b_holds-wake s.pc_b ∙ i.b_owns;
  c_owns = i.c_owns;
  range = i.range;
  relies = Relies-wake_any s.pc_b s.pc_c s.counter i.relies;
}

Kept-some : (o : Option State) {t : State} → o ≡ some t → Kept o → Safe t
Kept-some o e k = subst Kept e k

pub Step-Safe : {s t : State} → Safe s → Step s t → Safe t
unfolding dec_counter inc_counter
Step-Safe {s} i (b_runs e) = Kept-some _ e (dec_counter_at-Safe s.pc_b s refl i)
Step-Safe {s} i (c_runs e) = Kept-some _ e (inc_counter_at-Safe s.pc_c s refl i)
Step-Safe {s} i b_returns = spurious-Safe s i

-- In every state that the two threads can reach, with wake-ups that nobody asked for: the lock is
-- held by a thread exactly while it stands between its lock and its unlock, so never by both; the
-- counter is at most 10000 and below it where C adds; B takes only from a counter that is not 0;
-- and B sleeps only while the counter is 0 and C has not gone past its call to wake it.
pub Reach-Safe : {s : State} → Reach s → Safe s
Reach-Safe here = record { b_owns = refl; c_owns = refl; range = omega arith; relies = tt }
Reach-Safe (next r st) = Step-Safe (Reach-Safe r) st
