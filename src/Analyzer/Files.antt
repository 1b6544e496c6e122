-- ===== src/Analyzer/Files.antt =====
-- The files of the analyzer: the lists that events/switch.go, events/soft.go and process/process.go (under
-- analyzer/src/analyzer/lib) read, and the graph that process/process.go prints. `json.Unmarshal`,
-- `sort.Sort`, `strconv.Atoi` and the printing of a number are parameters; `none` is `log.Fatalln`.
pub mod Pids
pub mod Runs
pub mod Graph
use w_perf_archived.Base.{
  ℕ, ℤ, ◌≡◌, Bool, true, false, ◌||◌, Option, none, some, List, [], ◌∷◌, ◌++◌, ◌==◌, ◌&&◌,
  if◌then◌else◌,
}
use w_perf_archived.Tracer.Text.{Bytes, codes, newline}
use w_perf_archived.Analyzer.Soft.{Soft}
use w_perf_archived.Analyzer.States.{Switch, or_else}
use w_perf_archived.Analyzer.Cascade.{WaitForGraph}

abbrev pub onto_first : ℕ → List Bytes → List Bytes
onto_first c [] = (c ∷ []) ∷ []
onto_first c (l ∷ ls) = (c ∷ l) ∷ ls

-- `strings.Split` at a byte: one part more than there are such bytes.
unfoldable pub split : ℕ → Bytes → List Bytes
split sep [] = [] ∷ []
split sep (c ∷ text) = if c == sep then [] ∷ split sep text else onto_first c (split sep text)

-- `ls[:len(ls)-1]`
abbrev pub but_last : List Bytes → List Bytes
but_last [] = []
but_last (l ∷ []) = []
but_last (l ∷ k ∷ ls) = l ∷ but_last (k ∷ ls)

-- `strings.TrimSuffix` of one newline.
abbrev pub trim_newline : Bytes → Bytes
trim_newline [] = []
trim_newline (c ∷ []) = if c == b'\n' then [] else c ∷ []
trim_newline (c ∷ d ∷ text) = c ∷ trim_newline (d ∷ text)

abbrev pub add_event : {A : Type 0} → Option A → List A → List A
add_event none es = es
add_event (some e) es = e ∷ es

-- The loop over the lines: one that cannot be read is left out.
unfoldable pub read_lines : {A : Type 0} → (Bytes → Option A) → List Bytes → List A
read_lines unmarshal [] = []
read_lines unmarshal (l ∷ ls) = add_event (unmarshal l) (read_lines unmarshal ls)

unfoldable pub load_switch :
    (Bytes → Option Switch) → (List Switch → List Switch) → Bytes → List Switch
unfolding split read_lines
load_switch unmarshal sort text =
    sort (read_lines (λ l. unmarshal (trim_newline l)) (but_last (split b'\n' text)))

unfoldable pub load_soft : (Bytes → Option Soft) → Bytes → List Soft
unfolding split read_lines
load_soft unmarshal text = read_lines unmarshal (but_last (split b'\n' text))

abbrev pub add_pid : Option ℤ → Option (List ℤ) → Option (List ℤ)
add_pid none pids = none
add_pid (some pid) none = none
add_pid (some pid) (some pids) = some (pid ∷ pids)

unfoldable pub read_pids : (Bytes → Option ℤ) → List Bytes → Option (List ℤ)
read_pids atoi [] = some []
read_pids atoi (l ∷ ls) = add_pid (atoi (trim_newline l)) (read_pids atoi ls)

unfoldable pub pids : (Bytes → Option ℤ) → Bytes → Option (List ℤ)
unfolding split read_pids
pids atoi text = read_pids atoi (split b',' text)

-- `strings.HasPrefix` and `strings.Contains`.
abbrev pub starts_with : Bytes → Bytes → Bool
starts_with text [] = true
starts_with [] (c ∷ cs) = false
starts_with (b ∷ bs) (c ∷ cs) = (b == c) && starts_with bs cs

abbrev pub contains : Bytes → Bytes → Bool
contains [] part = starts_with [] part
contains (b ∷ bs) part = starts_with (b ∷ bs) part || contains bs part

abbrev pub print_edge : (ℕ → Bytes) → WaitForGraph → Bytes → Bytes → Bytes
print_edge show g k rest =
    if contains k (codes "-13") then rest else k ++ show (or_else (g k) 0) ++ newline ∷ rest

-- The loop over the graph, whose edges come in the order `ks`; `show` prints a weight over the frequency.
unfoldable pub print_edges : (ℕ → Bytes) → WaitForGraph → List Bytes → Bytes
print_edges show g [] = []
print_edges show g (k ∷ ks) = print_edge show g k (print_edges show g ks)

unfoldable pub output_wait_for_graph : (ℕ → Bytes) → WaitForGraph → List Bytes → Bytes
unfolding print_edges
output_wait_for_graph show g ks = codes "source,target,value" ++ newline ∷ print_edges show g ks
