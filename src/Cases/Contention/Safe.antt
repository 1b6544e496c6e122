-- ===== src/Cases/Contention/Safe.antt =====
-- What the invariant of the two threads says, and what it gives to the thread that holds the lock.
use w_perf_archived.Base.{
  ℕ, ◌<◌, ◌≤◌, ◌≡◌, ◌∙◌, sym, refl, ap, Bool, true, false, Option, none, some, arith,
}
use w_perf_archived.Cases.Contention.{
  PcB, PcC, Owner, State, lock_from, wake, dec_counter, inc_counter, spurious, start,
}

pub data Step (s : State) : State → Type 0 where
  b_runs : {t : State} → dec_counter s ≡ some t → Step s t
  c_runs : {t : State} → inc_counter s ≡ some t → Step s t
  b_returns : Step s (spurious s)

pub data Reach : State → Type 0 where
  here : Reach start
  next : {s t : State} → Reach s → Step s t → Reach t

abbrev pub b_holds : PcB → Bool
b_holds PcB.outside = false
b_holds PcB.asleep = false
b_holds PcB.woken = false
b_holds _ = true

abbrev pub c_holds : PcC → Bool
c_holds PcC.outside = false
c_holds _ = true

abbrev pub is_b : Owner → Bool
is_b Owner.thread_b = true
is_b _ = false

abbrev pub is_c : Owner → Bool
is_c Owner.thread_c = true
is_c _ = false

-- The range of the counter where C stands.
abbrev pub Range : PcC → ℕ → Type 0
Range PcC.testing n = n < 10000
Range PcC.waking n = n ≡ 0
Range PcC.adding n = n < 10000
Range _ n = n ≤ 10000

-- C has not yet gone past the call that wakes B.
abbrev pub will_wake : PcC → Bool
will_wake PcC.adding = false
will_wake PcC.leaving = false
will_wake _ = true

-- What B relies on where it stands: it takes from a counter that is not 0, and it sleeps only while
-- the counter is 0 and C is still to wake it.
abbrev pub Relies : PcB → PcC → ℕ → Type 0
Relies PcB.taking pc n = 0 < n
Relies PcB.asleep pc n = (n ≡ 0) × (will_wake pc ≡ true)
Relies _ pc n = Unit

pub record Safe (s : State) : Type 0 where
  pub b_owns : b_holds s.pc_b ≡ is_b s.owner
  pub c_owns : c_holds s.pc_c ≡ is_c s.owner
  pub range : Range s.pc_c s.counter
  pub relies : Relies s.pc_b s.pc_c s.counter

abbrev pub Kept : Option State → Type 0
Kept none = Unit
Kept (some t) = Safe t

pub Kept-lock_from :
    (o by : Owner) (s : State)
    → (o ≡ Owner.nobody → Safe (record s { owner = by }))
    → Kept (lock_from o by s)
Kept-lock_from Owner.nobody by s h = h refl
Kept-lock_from Owner.thread_b by s h = tt
Kept-lock_from Owner.thread_c by s h = tt

is_b→thread_b : (o : Owner) → is_b o ≡ true → o ≡ Owner.thread_b
is_b→thread_b Owner.nobody e = cc
is_b→thread_b Owner.thread_b e = refl
is_b→thread_b Owner.thread_c e = cc

pub not_c_holds : (pc : PcC) → c_holds pc ≡ false → pc ≡ PcC.outside
not_c_holds PcC.outside e = refl
not_c_holds PcC.wrapping e = cc
not_c_holds PcC.testing e = cc
not_c_holds PcC.waking e = cc
not_c_holds PcC.adding e = cc
not_c_holds PcC.leaving e = cc

-- While B holds the lock, C is outside.
pub b_alone :
    (s : State)
    → Safe s
    → b_holds s.pc_b ≡ true
    → (s.owner ≡ Owner.thread_b) × (s.pc_c ≡ PcC.outside)
b_alone s i h =
    let own = is_b→thread_b s.owner (sym i.b_owns ∙ h) in
    (own, not_c_holds s.pc_c (i.c_owns ∙ ap is_c own))

not_b_holds : (o : Owner) → is_c o ≡ true → is_b o ≡ false
not_b_holds Owner.nobody e = cc
not_b_holds Owner.thread_b e = cc
not_b_holds Owner.thread_c e = refl

-- A change of the counter and of the place of C, where B does not hold the lock and does not sleep,
-- or sleeps on.
pub Relies-change :
    (b : PcB) (c c' : PcC) (n n' : ℕ)
    → b_holds b ≡ false
    → (b ≡ PcB.asleep → Relies PcB.asleep c n → Relies PcB.asleep c' n')
    → Relies b c n
    → Relies b c' n'
Relies-change PcB.outside c c' n n' h f r = tt
Relies-change PcB.checking c c' n n' h f r = tt
Relies-change PcB.asleep c c' n n' h f r = f refl r
Relies-change PcB.woken c c' n n' h f r = tt
Relies-change PcB.notifying c c' n n' h f r = tt
Relies-change PcB.taking c c' n n' h f r = cc
Relies-change PcB.leaving c c' n n' h f r = tt

pub b_holds-wake : (b : PcB) → b_holds (wake b) ≡ b_holds b
b_holds-wake b = ground arith

-- B relies on nothing behind a wake-up that it can get while C holds the lock.
pub Relies-wake : (b : PcB) (c : PcC) (n : ℕ) → b_holds b ≡ false → Relies (wake b) c n
Relies-wake PcB.outside c n h = tt
Relies-wake PcB.checking c n h = tt
Relies-wake PcB.asleep c n h = tt
Relies-wake PcB.woken c n h = tt
Relies-wake PcB.notifying c n h = tt
Relies-wake PcB.taking c n h = cc
Relies-wake PcB.leaving c n h = tt

pub Relies-wake_any : (b : PcB) (c : PcC) (n : ℕ) → Relies b c n → Relies (wake b) c n
Relies-wake_any PcB.outside c n r = r
Relies-wake_any PcB.checking c n r = r
Relies-wake_any PcB.asleep c n r = tt
Relies-wake_any PcB.woken c n r = r
Relies-wake_any PcB.notifying c n r = r
Relies-wake_any PcB.taking c n r = r
Relies-wake_any PcB.leaving c n r = r

-- While C holds the lock, B does not.
pub c_alone : (s : State) → Safe s → c_holds s.pc_c ≡ true → b_holds s.pc_b ≡ false
c_alone s i h = i.b_owns ∙ not_b_holds s.owner (sym i.c_owns ∙ h)
