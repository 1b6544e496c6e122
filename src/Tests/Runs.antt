-- ===== src/Tests/Runs.antt =====
-- A run of the analyzer over small files: a line is one byte, which names an event.
use w_perf_archived.Base.{
  ℕ, ℤ, pos, ◌≤◌, ◌≡◌, refl, All, zero, suc, ◌/◌, replicate, ◌-◌, ◌++◌, Option, none, some, List,
  [], ◌∷◌, leb, ◌==◌, if◌then◌else◌, arith,
}
use w_perf_archived.Tracer.Text.{Bytes, codes, newline}
use w_perf_archived.Analyzer.Soft.{Soft, get_ceiling_soft, init_soft_container}
use w_perf_archived.Analyzer.States.{Switch, last_time}
use w_perf_archived.Analyzer.Segments.{switch_step}
use w_perf_archived.Analyzer.Segments.Chain.{Ordered}
use w_perf_archived.Analyzer.Main.{analyze}
use w_perf_archived.Analyzer.Main.Whole.{Analyzed}
use w_perf_archived.Analyzer.Files.{
  split, read_lines, load_switch, load_soft, read_pids, pids, output_wait_for_graph,
}
use w_perf_archived.Analyzer.Cascade.{WaitForGraph, set_weight}
use w_perf_archived.Analyzer.Files.Pids.{IsPlain}
use w_perf_archived.Analyzer.Files.Graph.{Ends, key, keys, read_graph, output_wait_for_graph-rows}
use w_perf_archived.Analyzer.Files.Runs.{IsSorted, analyze_files, analyze_files-Analyzed}
use w_perf_archived.Tests.Analyzer.{seg_map, soft_map, stops, goes_on, interrupted}

abbrev event_of : ℕ → List Switch → Option Switch
event_of n [] = none
event_of n (sw ∷ swl) = if n == 0 then some sw else event_of (n - 1) swl

abbrev to_switch : Bytes → Option Switch
to_switch [] = none
to_switch (c ∷ cs) = event_of (c - b'0') (stops ∷ goes_on)

abbrev to_soft : Bytes → Option Soft
to_soft l = some (record { cpu = pos 0; stime = 31; etime = 35 })

abbrev put_in : Switch → List Switch → List Switch
put_in s [] = s ∷ []
put_in s (w ∷ ws) = if leb s.time w.time then s ∷ w ∷ ws else w ∷ put_in s ws

abbrev sort : List Switch → List Switch
sort [] = []
sort (s ∷ ss) = put_in s (sort ss)

put_in-Ordered :
    (b : ℕ) (s : Switch) (l : List Switch) → b ≤ s.time → Ordered b l → Ordered b (put_in s l)
put_in-Ordered b s [] h o = (h, tt)
put_in-Ordered b s (w ∷ ws) h (o, os) = ground (arith, put_in-Ordered w.time s ws)

put_in-IsSorted : (s : Switch) (l : List Switch) → IsSorted l → IsSorted (put_in s l)
put_in-IsSorted s [] h = tt
put_in-IsSorted s (w ∷ ws) h = ground (arith, put_in-Ordered w.time s ws)

sort-IsSorted : (l : List Switch) → IsSorted (sort l)
sort-IsSorted [] = tt
sort-IsSorted (s ∷ ss) = put_in-IsSorted s (sort ss) (sort-IsSorted ss)

-- A number of one digit.
abbrev atoi : Bytes → Option ℤ
atoi [] = none
atoi (c ∷ cs) = some (pos (c - b'0'))

analyze_files-Analyzed_example :
    (analyze_files atoi to_switch to_soft sort seg_map soft_map 1 20
        (codes "1,2")
        (codes "1"
          ++ newline ∷ codes "0"
          ++ newline ∷ codes "3"
          ++ newline ∷ codes "2"
          ++ newline ∷ [])
        (codes "x" ++ newline ∷ [])
      ≡ analyze seg_map soft_map 1 20 (pos 1 ∷ pos 2 ∷ []) (stops ∷ goes_on) interrupted)
    × Analyzed seg_map soft_map 1 20 (pos 1 ∷ pos 2 ∷ []) (stops ∷ goes_on) interrupted
unfolding last_time switch_step get_ceiling_soft init_soft_container split read_lines load_switch
    load_soft read_pids pids
analyze_files-Analyzed_example =
    analyze_files-Analyzed atoi to_switch to_soft sort seg_map soft_map 0 20 (codes "1,2")
      (codes "1"
        ++ newline ∷ codes "0"
        ++ newline ∷ codes "3"
        ++ newline ∷ codes "2"
        ++ newline ∷ [])
      (codes "x" ++ newline ∷ []) (pos 1 ∷ pos 2 ∷ []) stops goes_on refl refl sort-IsSorted
      (omega arith) (refl, (refl, tt))
      (
        (
          refl,
          ((λ e. absurd (cc e)), ((λ e. absurd (cc e)), ((λ e. (omega arith, omega arith)), tt))),
        ),
        (
          (
            refl,
            ((λ e. absurd (cc e)), ((λ e. (omega arith, omega arith)), ((λ e. absurd (cc e)), tt))),
          ),
          tt,
        ),
      )
      (omega arith)

-- A number written as so many ones, and the texts of these.
abbrev ones : ℕ → Bytes
ones n = replicate n b'1'

-- Weights that differ by less than 4 can print alike.
abbrev quarter : ℕ → Bytes
quarter n = ones (n / 4)

ones-IsPlain : (n : ℕ) → All IsPlain (ones n)
ones-IsPlain zero = tt
ones-IsPlain (suc n) = ((omega arith, omega arith), ones-IsPlain n)

abbrev a_on_b : Ends
a_on_b = record { source = codes "a"; target = codes "b" }

abbrev hidden : Ends
hidden = record { source = codes "a"; target = codes "c-13" }

abbrev graph : WaitForGraph
graph = set_weight (set_weight (λ k. none) (key a_on_b) 10) (key hidden) 3

output_wait_for_graph-rows_example :
    read_graph (output_wait_for_graph quarter graph (keys (hidden ∷ a_on_b ∷ [])))
    ≡ record { ends = a_on_b; value = codes "11" } ∷ []
output_wait_for_graph-rows_example =
    output_wait_for_graph-rows quarter graph (λ n. ones-IsPlain (n / 4)) (hidden ∷ a_on_b ∷ [])
      (
        (
          ((omega arith, omega arith), tt),
          (
            (omega arith, omega arith),
            (
              (omega arith, omega arith),
              ((omega arith, omega arith), ((omega arith, omega arith), tt)),
            ),
          ),
        ),
        ((((omega arith, omega arith), tt), ((omega arith, omega arith), tt)), tt),
      )
