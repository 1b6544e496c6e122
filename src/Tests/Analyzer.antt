-- ===== src/Tests/Analyzer.antt =====
-- The analyzer over a concrete tree map and a trace of two processes.
use w_perf_archived.Base.{ℕ, ℤ, pos, ◌≡◌, refl, Option, none, some, List, [], ◌∷◌, arith}
use w_perf_archived.Analyzer.Treemap.{Treemap, insert, floor_in, ceiling_in}
use w_perf_archived.Analyzer.Soft.{Soft, no_softs, init_soft_container, get_ceiling_soft}
use w_perf_archived.Analyzer.Soft.Nearest.{no_softs-IsSoftMap, nearest, get_ceiling_soft-nearest}
use w_perf_archived.Analyzer.States.{
  Switch, States, no_states, or_else, last_time, process, init_prev_states, init_comm_map,
  get_prev_state,
}
use w_perf_archived.Analyzer.States.Laws.{exit_of, init_prev_states-timestamp}
use w_perf_archived.Analyzer.Segments.{Segment, switch_step, break_events, break_into_segments}
use w_perf_archived.Analyzer.Segments.Broken.{first_switch}
use w_perf_archived.Analyzer.Segments.Whole.{Tiled, segments-Tiled, segments-exit}
use w_perf_archived.Analyzer.Cascade.{returns, cascade}
use w_perf_archived.Analyzer.Cascade.Edges.{add_wait}
use w_perf_archived.Analyzer.Cascade.Walk.{cascade-add_wait}
use w_perf_archived.Analyzer.Main.{no_comms, no_weights}

-- A tree map that is the list of its entries.
abbrev sorted_list : (V : Type 0) → Treemap V
sorted_list V = record {
  Tree = List (ℕ × V);
  new_with = [];
  put = insert;
  floor = floor_in;
  ceiling = ceiling_in;
  entries = λ t. t;
  entries-new_with = refl;
  entries-put = λ k v t. refl;
  floor-entries = λ k t. refl;
  ceiling-entries = λ k t. refl;
}

abbrev pub seg_map : Treemap Segment
seg_map = sorted_list Segment

abbrev pub soft_map : Treemap Soft
soft_map = sorted_list Soft

abbrev event : ℕ → ℤ → ℤ → ℕ → ℤ → Switch
event time type prev prev_state next = record {
  cpu = pos 0;
  time = time;
  type = type;
  prev_pid = prev;
  next_pid = next;
  prev_state = prev_state;
  next_state = 0;
  prev_comm = b'a' ∷ [];
  next_comm = b'b' ∷ [];
  in_which_ctx = process;
}

-- 1 stops for 2, which wakes it and is preempted by it.
abbrev pub stops : Switch
stops = event 10 (pos 0) (pos 1) 1 (pos 2)

abbrev pub goes_on : List Switch
goes_on =
    event 20 (pos 1) (pos 2) 0 (pos 1)
    ∷ event 30 (pos 0) (pos 2) 0 (pos 1)
    ∷ event 40 (pos 0) (pos 1) 1 (pos 0)
    ∷ []

abbrev pub interrupted : List Soft
interrupted = record { cpu = pos 0; stime = 31; etime = 35 } ∷ []

get_ceiling_soft-nearest_example :
    get_ceiling_soft soft_map
      (init_soft_container soft_map interrupted (no_softs soft_map))
      (pos 0)
      30
    ≡ nearest (pos 0) 30 interrupted none
get_ceiling_soft-nearest_example = get_ceiling_soft-nearest soft_map (pos 0) 30 interrupted

init_prev_states-timestamp_example :
    (s : States) × (init_prev_states (pos 1 ∷ []) (stops ∷ goes_on) no_states ≡ some s)
    × (get_prev_state s (pos 1) ≡ record {
      timestamp = or_else (exit_of (pos 1) (stops ∷ goes_on) none) (last_time 10 goes_on);
      state = ℤ.negsuc 0;
    })
    × (s.exit_time (pos 1) ≡ exit_of (pos 1) (stops ∷ goes_on) none)
init_prev_states-timestamp_example =
    init_prev_states-timestamp (pos 1 ∷ []) stops goes_on (pos 1) refl

segments-Tiled_example :
    (s : States) × (init_prev_states (pos 1 ∷ []) (stops ∷ goes_on) no_states ≡ some s)
    × Tiled seg_map
        (pos 1)
        40
        (or_else (first_switch (pos 1) (stops ∷ goes_on)) 40)
        40
        (break_into_segments soft_map (no_softs soft_map) (pos 1) seg_map s (stops ∷ goes_on) [])
unfolding last_time break_events switch_step get_ceiling_soft init_soft_container
segments-Tiled_example =
    segments-Tiled seg_map soft_map (no_softs soft_map) (no_softs-IsSoftMap soft_map) (pos 1 ∷ [])
      (pos 1) stops goes_on [] refl refl (omega arith, (omega arith, (omega arith, tt)))
      ((λ e. absurd (cc e)), ((λ e. absurd (cc e)), ((λ e. tt), tt))) refl

-- 7 is seen at its exit alone.
abbrev exits : Switch
exits = event 10 (pos 3) (pos 7) 0 (pos 0)

segments-exit_example :
    (s : States) × (init_prev_states (pos 7 ∷ []) (exits ∷ []) no_states ≡ some s)
    × (break_into_segments soft_map (no_softs soft_map) (pos 7) seg_map s (exits ∷ []) [] ≡ none)
unfolding first_switch
segments-exit_example =
    segments-exit seg_map soft_map (no_softs soft_map) (no_softs-IsSoftMap soft_map) (pos 7 ∷ [])
      (pos 7) exits [] [] 10 refl refl refl refl

-- 1 has waited for 2, which waits for nobody.
abbrev waited : Segment
waited = record { pid = pos 1; state = pos 2; stime = 10; etime = 20; wait_for = pos 2 }

abbrev of_all : ℤ → Option (List (ℕ × Segment))
of_all pid =
    some ((5, record { pid = pos 2; state = pos 0; stime = 5; etime = 30; wait_for = pos 0 }) ∷ [])

cascade-add_wait_example :
    cascade seg_map 1 8 (init_comm_map (stops ∷ []) no_comms) of_all waited no_weights
    ≡ returns (add_wait (init_comm_map (stops ∷ []) no_comms) waited no_weights)
cascade-add_wait_example =
    cascade-add_wait seg_map 0 8 (init_comm_map (stops ∷ []) no_comms) of_all waited no_weights
      (λ b. (
        record { rising = tt; keyed = (refl, omega arith, tt); reaches = omega arith },
        omega arith,
      ))
