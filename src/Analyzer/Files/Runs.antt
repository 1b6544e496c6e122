-- ===== src/Analyzer/Files/Runs.antt =====
-- A run of the analyzer from the texts of its files.
use mathlib.Core.Path.{subst}
use w_perf_archived.Base.{
  ℕ, suc, ℤ, ◌+◌, ◌^◌, ◌<◌, ◌≤◌, ◌≡◌, refl, Option, some, List, [], ◌∷◌, All,
}
use w_perf_archived.Tracer.Text.{Bytes}
use w_perf_archived.Analyzer.Treemap.{Treemap}
use w_perf_archived.Analyzer.Soft.{Soft}
use w_perf_archived.Analyzer.States.{Switch}
use w_perf_archived.Analyzer.Segments.{Segment}
use w_perf_archived.Analyzer.Segments.Chain.{Ordered}
use w_perf_archived.Analyzer.Cascade.{WaitForGraph, Outcome, and_then}
use w_perf_archived.Analyzer.Main.{or_panic, analyze}
use w_perf_archived.Analyzer.Main.Loop.{AreDistinct, end_of, bound}
use w_perf_archived.Analyzer.Main.Whole.{Analyzed, IsCalm, analyze-Analyzed}
use w_perf_archived.Analyzer.Files.{load_switch, load_soft, pids}

-- What `sort.Sort` promises of the times.
abbrev pub IsSorted : List Switch → Type 0
IsSorted [] = Unit
IsSorted (sw ∷ swl) = Ordered sw.time swl

module _ (atoi : Bytes → Option ℤ) (to_switch : Bytes → Option Switch)
    (to_soft : Bytes → Option Soft) (sort : List Switch → List Switch) where
  module _ (M : Treemap Segment) (N : Treemap Soft) where
    -- `main` from the texts of its files to the graph.
    unfoldable pub analyze_files : ℕ → ℕ → Bytes → Bytes → Bytes → Outcome WaitForGraph
    unfolding analyze load_switch load_soft pids
    analyze_files depth fuel pids_text switch_text soft_text =
        and_then M (or_panic (pids atoi pids_text)) (λ pl.
          analyze M N depth fuel pl (load_switch to_switch sort switch_text)
            (load_soft to_soft soft_text))

    -- The switches that are read are sorted, so the first is before the others.
    load_switch-Ordered :
        (text : Bytes) (sw : Switch) (swl : List Switch)
        → ((l : List Switch) → IsSorted (sort l))
        → load_switch to_switch sort text ≡ sw ∷ swl
        → Ordered sw.time swl
    unfolding load_switch
    load_switch-Ordered text sw swl sorted e = subst IsSorted e (sorted _)

    -- Over files that give distinct pids that do not exit in the trace and at least one switch,
    -- with a sort that sorts by time, a last time with a successor below 2^64, and softirqs of
    -- which none that the analyzer finds at a switch out of a process, behind its first switch,
    -- began before the last event of the process or ends before it begins: the run of the analyzer
    -- ends without a panic, with a depth of one call and with rounds for three segments of each
    -- event and one more; and the weight of each edge is the 64-bit sum of the times of the blocked
    -- segments that its loops have made between programs with these names.
    pub analyze_files-Analyzed :
        (depth fuel : ℕ) (pids_text switch_text soft_text : Bytes)
        → (pl : List ℤ) (sw : Switch) (swl : List Switch) → pids atoi pids_text ≡ some pl
        → load_switch to_switch sort switch_text ≡ sw ∷ swl
        → ((l : List Switch) → IsSorted (sort l))
        → bound (sw ∷ swl) ≤ fuel
        → AreDistinct pl
        → All (IsCalm M N sw swl (load_soft to_soft soft_text)) pl
        → end_of sw swl + 1 < 2 ^ 64
        → (analyze_files (suc depth) fuel pids_text switch_text soft_text
            ≡ analyze M N (suc depth) fuel pl (sw ∷ swl) (load_soft to_soft soft_text))
          × Analyzed M N (suc depth) fuel pl (sw ∷ swl) (load_soft to_soft soft_text)
    unfolding analyze_files
    analyze_files-Analyzed depth fuel pids_text switch_text soft_text pl sw swl p q sorted enough d
          calm small =
        (
          rw (p, q) refl,
          analyze-Analyzed M N depth fuel pl sw swl (load_soft to_soft soft_text) enough d calm
              (load_switch-Ordered switch_text sw swl sorted q) small,
        )
