-- ===== src/Cases/Program.antt =====
-- The programs of cases/lock-contention-with-sleep/main.c and cases/lock-contention-with-spin/main.c from
-- their start: `main` creates B and then C, while those that are there run.
-- The thread A, which only waits for signals, shares nothing with them and is left out here.
use mathlib.Core.Path.{subst}
use native.Mathlib.Decide.{dec_lt}
use w_perf_archived.Base.{
  ltb→lt, lt→ltb, ℕ, zero, suc, ◌+◌, ◌<◌, ◌≤◌, ◌≡◌, ◌⊎◌, refl, ap, Option, none, some, ltb, ◌==◌,
  if◌then◌else◌, arith, inl, inr, Bool-cases,
}
use w_perf_archived.Cases.Contention.{State, dec_counter, inc_counter, spurious, start}
use w_perf_archived.Cases.Contention.Safe.{b_runs, c_runs, b_returns, Reach, here, next, Safe}
use w_perf_archived.Cases.Contention.Invariant.{Reach-Safe}
use w_perf_archived.Cases.Contention.Progress.{Reach-runs}

-- The data that the threads share, and how many of the two `main` has created.
pub record Program : Type 0 where
  pub state : State
  pub created : ℕ

-- `thread_main`, called with 0 and with 1: which loop a thread is in.
unfoldable pub thread_main : ℕ → State → Option State
unfolding dec_counter inc_counter
thread_main i s = if i == 0 then dec_counter s else inc_counter s

-- The `for` loop of `main`.
unfoldable pub create_thread : Program → Option Program
create_thread p = if ltb p.created 2 then some (record p { created = p.created + 1 }) else none

-- What happens next: `main` goes on, a thread that has been created does, or B is woken by nobody.
pub data ProgramStep (p : Program) : Program → Type 0 where
  main_runs : {q : Program} → create_thread p ≡ some q → ProgramStep p q
  thread_runs :
      (i : ℕ) {t : State}
      → i < p.created
      → thread_main i p.state ≡ some t
      → ProgramStep p (record p { state = t })
  b_wakes : ProgramStep p (record p { state = spurious p.state })

pub data ProgramReach : Program → Type 0 where
  begun : ProgramReach (record { state = start; created = 0 })
  then_step : {p q : Program} → ProgramReach p → ProgramStep p q → ProgramReach q

abbrev state_or : Option Program → State
state_or none = start
state_or (some q) = q.state

abbrev count_or : Option Program → ℕ
count_or none = 0
count_or (some q) = q.created

created_state :
    (p : Program) {q : Program}
    → create_thread p ≡ some q
    → (p.state ≡ q.state) × (p.created + 1 ≡ q.created) × (p.created < 2)
unfolding create_thread
created_state p e = elim (Bool-cases (ltb p.created 2)) [
  | inl z ↦ let same = rw z at e in (ap state_or same, ap count_or same, ltb→lt p.created 2 z)
  | inr z ↦ absurd (cc (rw z at e))
]

thread_main-Reach : (i : ℕ) {s t : State} → Reach s → thread_main i s ≡ some t → Reach t
unfolding thread_main
thread_main-Reach zero r e = next r (b_runs e)
thread_main-Reach (suc i) r e = next r (c_runs (ground (arith, e)))

-- What the program can reach, the two threads can reach; and no more than two are created.
pub ProgramReach-Reach : {p : Program} → ProgramReach p → Reach p.state × (p.created ≤ 2)
ProgramReach-Reach begun = (here, omega arith)
ProgramReach-Reach (then_step {p} r (main_runs e)) =
    let (s, l) = ProgramReach-Reach r in
    let (same, more, few) = created_state p e in (subst Reach same s, omega (arith, more, few))
ProgramReach-Reach (then_step r (thread_runs i h e)) =
    let (s, l) = ProgramReach-Reach r in (thread_main-Reach i s e, l)
ProgramReach-Reach (then_step r b_wakes) =
    let (s, l) = ProgramReach-Reach r in (next s b_returns, l)

-- Who can go on, but for B where nobody wakes it: `main`, or a thread that has been created.
abbrev pub GoesOn : Program → Type 0
GoesOn p =
    ((q : Program) × (create_thread p ≡ some q))
    ⊎ ((i : ℕ) × (t : State) × (i < p.created) × (thread_main i p.state ≡ some t))

all_created :
    (p : Program) {t : State}
    → p.created ≡ 2
    → (dec_counter p.state ≡ some t) ⊎ (inc_counter p.state ≡ some t)
    → GoesOn p
unfolding thread_main
all_created p {t} e (inl h) = inr (0, t, omega arith, h)
all_created p {t} e (inr h) = inr (1, t, omega arith, h)

-- From the start of the program on, where `main` creates B and then C while those that are there
-- run: in every state that can be reached the invariant of the two threads holds, and `main` or a
-- thread that has been created can go on, without a wake-up that nobody asked for.
pub ProgramReach-GoesOn : {p : Program} → ProgramReach p → Safe p.state × GoesOn p
unfolding create_thread
ProgramReach-GoesOn {p} r =
    let (s, l) = ProgramReach-Reach r in
    (
      Reach-Safe s,
      elim (dec_lt p.created 2) [
        | yes few ↦ inl (record p { created = p.created + 1 }, rw (lt→ltb p.created 2 few) refl)
        | no all ↦ let (t, h) = Reach-runs s in all_created p (omega arith) h
      ],
    )
