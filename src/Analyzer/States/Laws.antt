-- ===== src/Analyzer/States/Laws.antt =====
-- What the initial states are.
use w_perf_archived.Base.{
  ℕ, ℤ, pos, negsuc, ◌==ℤ◌, ==ℤ_iff, ◌≡◌, refl, ap, ◌∙◌, Bool, true, false, ◌||◌, ◌&&◌, Option,
  none, some, List, [], ◌∷◌, if◌then◌else◌, arith,
}
use w_perf_archived.Analyzer.States.{
  Switch, PrevState, States, no_states, or_else, collect_times, last_time, init_pid, init_pids,
  init_prev_states, get_prev_state,
}

abbrev pub is_in : ℤ → List ℤ → Bool
is_in v [] = false
is_in v (u ∷ us) = (u ==ℤ v) || is_in v us

abbrev final_state : ℕ → States → ℤ → PrevState
final_state e s v = record { timestamp = or_else (s.exit_time v) e; state = negsuc 0 }

init_pids-exit_time :
    (b e : ℕ) (pl : List ℤ) (s : States) → (init_pids b e pl s).exit_time ≡ s.exit_time
unfolding init_pids
init_pids-exit_time b e [] s = refl
init_pids-exit_time b e (v ∷ pl) s = init_pids-exit_time b e pl (init_pid b e v s)

init_pids-prev_state :
    (b e : ℕ) (pl : List ℤ) (s : States) (v : ℤ)
    → (init_pids b e pl s).prev_state v
      ≡ (if is_in v pl then some (final_state e s v) else s.prev_state v)
unfolding init_pids
init_pids-prev_state b e [] s v = refl
init_pids-prev_state b e (u ∷ us) s v =
    init_pids-prev_state b e us (init_pid b e u s) v ∙ ground (arith, ==ℤ_iff u v)

-- The time of the last exit of `v` in a trace; `d` where there is none.
abbrev pub exit_of : ℤ → List Switch → Option ℕ → Option ℕ
exit_of v [] d = d
exit_of v (w ∷ ws) d =
    exit_of v ws (if (w.type ==ℤ pos 3) && (w.prev_pid ==ℤ v) then some w.time else d)

collect_times-exit_time :
    (ws : List Switch) (s : States) (v : ℤ)
    → (collect_times ws s).exit_time v ≡ exit_of v ws (s.exit_time v)
unfolding collect_times
collect_times-exit_time [] s v = refl
collect_times-exit_time (w ∷ ws) s v =
    collect_times-exit_time ws _ v
    ∙ ap (exit_of v ws) ground (arith, ==ℤ_iff w.type (pos 2), ==ℤ_iff w.type (pos 3))

-- What holds of every listed pid at once.
abbrev pub AllStarted : List ℤ → ℕ → (ℤ → Option ℕ) → States → Type 0
AllStarted pl e exits s =
    (v : ℤ)
    → is_in v pl ≡ true
    → (get_prev_state s v ≡ record { timestamp = or_else (exits v) e; state = negsuc 0 })
      × (s.exit_time v ≡ exits v)

pub init_prev_states-AllStarted :
    (pl : List ℤ) (w : Switch) (ws : List Switch)
    → (s : States) × (init_prev_states pl (w ∷ ws) no_states ≡ some s)
      × AllStarted pl (last_time w.time ws) (λ v. exit_of v (w ∷ ws) none) s
unfolding init_prev_states get_prev_state
init_prev_states-AllStarted pl w ws =
    let t = collect_times (w ∷ ws) no_states in
    (
      init_pids w.time (last_time w.time ws) pl t,
      refl,
      λ v h. (
        ap (λ (o : Option PrevState). or_else o (record { timestamp = 0; state = pos 0 }))
            (init_pids-prev_state w.time (last_time w.time ws) pl t v
              ∙ ap (λ b. if b then some (final_state (last_time w.time ws) t v) else t.prev_state v)
                  h
              ∙ ap
                  (λ o.
                    some (record { timestamp = or_else o (last_time w.time ws); state = negsuc 0 }))
                  (collect_times-exit_time (w ∷ ws) no_states v)),
        ap (λ f. f v) (init_pids-exit_time w.time (last_time w.time ws) pl t)
            ∙ collect_times-exit_time (w ∷ ws) no_states v,
      ),
    )

-- For every list of pids and every trace that is not empty, the state that a listed pid starts with
-- holds the time of its last exit in the trace, or, without one, that of the end of the trace:
-- never the time of its creation or of the start. Its exit time is that of its last exit.
pub init_prev_states-timestamp :
    (pl : List ℤ) (w : Switch) (ws : List Switch) (v : ℤ)
    → is_in v pl ≡ true
    → (s : States) × (init_prev_states pl (w ∷ ws) no_states ≡ some s)
      × (get_prev_state s v ≡ record {
        timestamp = or_else (exit_of v (w ∷ ws) none) (last_time w.time ws);
        state = negsuc 0;
      })
      × (s.exit_time v ≡ exit_of v (w ∷ ws) none)
init_prev_states-timestamp pl w ws v h =
    let (s, returns, started) = init_prev_states-AllStarted pl w ws in
    (s, returns, (started v h).0, (started v h).1)
