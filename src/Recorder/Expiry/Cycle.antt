-- ===== src/Recorder/Expiry/Cycle.antt =====
-- What holds of a recording in every order of its timer and of interrupts.
use w_perf_archived.Recorder.Workers.Laws.{down}
use w_perf_archived.Base.{
  ap₂, append-nil, append_assoc, ℕ, zero, suc, ◌+◌, ◌≤◌, ◌<◌, ◌≡◌, refl, sym, ◌∙◌, ap, true, false,
  not, List, [], ◌∷◌, ◌++◌, ◌==◌, ltb, inl, inr, ◌⊎◌, arith,
}
use w_perf_archived.Recorder.Debugfs.{Write, Host, running}
use w_perf_archived.Recorder.Expiry.{Recorder, kill_workers, sig_cleanup, timer_expire, started}

pub data Step (host : Host) (r : Recorder) : Recorder → Type 0 where
  interrupt :
      (log : List Write)
      → r.sig_active ≡ true
      → r.run ≡ running log
      → Step host r (sig_cleanup host log r)
  timeout :
      (log : List Write)
      → r.timer_active ≡ true
      → r.run ≡ running log
      → Step host r (timer_expire host log r)

pub data Reach (host : Host) (s : Recorder) : Recorder → Type 0 where
  here : Reach host s s
  next : {r t : Recorder} → Reach host s r → Step host r t → Reach host s t

-- Each of the workers, from the last to the first, `k` times.
abbrev pub rounds : ℕ → ℕ → List ℕ
rounds zero n = []
rounds (suc k) n = rounds k n ++ down n

pub record Cycle (workers : ℕ) (r : Recorder) : Type 0 where
  pub workers_kept : r.worker_count ≡ workers
  pub timer : r.timer_active ≡ not r.expired
  pub expired : r.expired ≡ ltb 0 (r.interrupts + r.timeouts)
  pub signal : r.sig_active ≡ (r.timeouts == 0)
  pub one_end : (r.interrupts ≡ 0) ⊎ (r.timeouts ≡ 0)
  pub once : r.timeouts ≤ 1
  pub killed : r.killed ≡ rounds (r.interrupts + r.timeouts) workers

kill_workers-down : (n : ℕ) (killed : List ℕ) → kill_workers n killed ≡ killed ++ down n
unfolding kill_workers
kill_workers-down zero killed = sym (append-nil killed)
kill_workers-down (suc n) killed =
    kill_workers-down n (killed ++ n ∷ []) ∙ append_assoc killed (n ∷ []) (down n)

one_round :
    (k k' n workers : ℕ) (killed : List ℕ)
    → killed ≡ rounds k workers
    → n ≡ workers
    → k' ≡ suc k
    → kill_workers n killed ≡ rounds k' workers
one_round k k' n workers killed h e e' =
    kill_workers-down n killed ∙ ap₂ (λ l m. l ++ down m) h e ∙ ap (λ j. rounds j workers) (sym e')

quiet : (n : ℕ) → (n == 0) ≡ true → n ≡ 0
quiet n h = ground arith

pub unexpired : (n : ℕ) → true ≡ not (ltb 0 n) → n ≡ 0
unexpired n h = ground arith

Step-Cycle : {host : Host} {n : ℕ} {r t : Recorder} → Cycle n r → Step host r t → Cycle n t
unfolding sig_cleanup timer_expire
Step-Cycle {n = n} {r = r} c (interrupt log a e) =
    let none_out = quiet r.timeouts (sym c.signal ∙ a) in
    record {
      workers_kept = c.workers_kept;
      timer = refl;
      expired = ground arith;
      signal = c.signal;
      one_end = inr none_out;
      once = c.once;
      killed =
          one_round (r.interrupts + r.timeouts) (r.interrupts + 1 + r.timeouts) r.worker_count n
            r.killed c.killed c.workers_kept (omega arith);
    }
Step-Cycle {n = n} {r = r} c (timeout log a e) =
    let fresh = unexpired (r.interrupts + r.timeouts) (sym a ∙ c.timer ∙ ap not c.expired) in
    record {
      workers_kept = c.workers_kept;
      timer = refl;
      expired = ground arith;
      signal = ground (arith, fresh);
      one_end = inl (omega (arith, fresh));
      once = omega (arith, fresh);
      killed =
          one_round (r.interrupts + r.timeouts) (r.interrupts + (r.timeouts + 1)) r.worker_count n
            r.killed c.killed c.workers_kept (omega arith);
    }

started-Cycle : (n : ℕ) (log : List Write) → Cycle n (started n log)
started-Cycle n log = record {
  workers_kept = refl;
  timer = refl;
  expired = refl;
  signal = refl;
  one_end = inl refl;
  once = omega arith;
  killed = refl;
}

-- From the call of `uv_run`, in every order of the timer and of interrupts: the timer is active
-- exactly until the recorder expires, and it expires with the first of them; the signal is active
-- exactly until the timer comes; the timer comes once at most, and never together with an
-- interrupt; and the workers that were signalled are all of them, from the last to the first, for
-- each interrupt and for the timer.
pub Reach-Cycle :
    {host : Host} (n : ℕ) (log : List Write) {r : Recorder}
    → Reach host (started n log) r
    → Cycle n r
Reach-Cycle n log here = started-Cycle n log
Reach-Cycle n log (next r st) = Step-Cycle (Reach-Cycle n log r) st

positive : (m n : ℕ) → 0 < m → ltb 0 (m + n) ≡ true
positive m n h = ground arith

stays : (n : ℕ) → n ≡ 0 → true ≡ (n == 0)
stays n h = ground arith

-- From the call of `uv_run`, once an interrupt has come, the signal handle is active, and the timer
-- is not, in every later state.
pub Reach-interrupted :
    {host : Host} (n : ℕ) (log : List Write) {r : Recorder}
    → Reach host (started n log) r
    → 0 < r.interrupts
    → (r.sig_active ≡ true) × (r.timer_active ≡ false)
Reach-interrupted n log {r} p h =
    let c = Reach-Cycle n log p in
    let none_out : r.timeouts ≡ 0 = elim c.one_end [ inl e ↦ absurd (omega arith) | inr e ↦ e ] in
    (
      c.signal ∙ sym (stays r.timeouts none_out),
      c.timer ∙ ap not (c.expired ∙ positive r.interrupts r.timeouts h),
    )
