-- ===== src/Analyzer/Files/Graph.antt =====
-- The file of the wait-for graph, written by `OutputWaitForGraph` of
-- analyzer/src/analyzer/lib/process/process.go, as a reader of comma-separated values takes it.
use w_perf_archived.Base.{
  ℕ, ◌≡◌, ◌≢◌, refl, ap, ap₂, ◌∙◌, Bool, true, false, ◌||◌, ◌&&◌, ◌==◌, Option, none, some, List,
  [], ◌∷◌, ◌++◌, All, All-append, append_assoc, if◌then◌else◌, Bool-cases, inl, inr, arith,
}
use w_perf_archived.Tracer.Text.{Bytes, codes, newline}
use w_perf_archived.Analyzer.Cascade.{WaitForGraph, edge}
use w_perf_archived.Analyzer.Cascade.Edges.{weight_of}
use w_perf_archived.Analyzer.Files.{
  split, but_last, read_lines, starts_with, contains, print_edges, output_wait_for_graph,
}
use w_perf_archived.Analyzer.Files.Pids.{IsPlain, split-append, All-commas, All-newlines}

-- Two programs, of which the first waits for the second, and a line of the file.
pub record Ends : Type 0 where
  pub source : Bytes
  pub target : Bytes

pub record Row : Type 0 where
  pub ends : Ends
  pub value : Bytes

abbrev pub key : Ends → Bytes
key e = edge e.source e.target

-- A line has three fields.
abbrev read_row : List Bytes → Option Row
read_row (a ∷ b ∷ n ∷ []) = some (record { ends = record { source = a; target = b }; value = n })
read_row _ = none

abbrev rest_of : List Bytes → List Bytes
rest_of [] = []
rest_of (l ∷ ls) = ls

-- The lines behind the header, each up to its newline.
abbrev pub read_graph : Bytes → List Row
read_graph text =
    read_lines (λ l. read_row (split b',' l)) (rest_of (but_last (split newline text)))

abbrev pub keys : List Ends → List Bytes
keys [] = []
keys (e ∷ es) = key e ∷ keys es

abbrev pub is_hidden : Ends → Bool
is_hidden e = contains e.source (codes "-13") || contains e.target (codes "-13")

-- The edges between programs of which none has -13 in its name, with their weights as `show` prints
-- them.
abbrev pub rows : (ℕ → Bytes) → WaitForGraph → List Ends → List Row
rows show g [] = []
rows show g (e ∷ es) =
    if is_hidden e
    then rows show g es
    else record { ends = e; value = show (weight_of g (key e)) } ∷ rows show g es

abbrev pub ArePlain : Ends → Type 0
ArePlain e = All IsPlain e.source × All IsPlain e.target

starts_with-comma :
    (s t part : Bytes)
    → All (λ c. c ≢ b',') part
    → starts_with (s ++ b',' ∷ t) part ≡ starts_with s part
starts_with-comma [] t [] h = refl
starts_with-comma (b ∷ bs) t [] h = refl
starts_with-comma [] t (c ∷ cs) (h, hs) = ground arith
starts_with-comma (b ∷ bs) t (c ∷ cs) (h, hs) =
    ap (λ r. (b == c) && r) (starts_with-comma bs t cs hs)

or_assoc : (a b c : Bool) → (a || (b || c)) ≡ ((a || b) || c)
or_assoc true b c = refl
or_assoc false b c = refl

contains-comma :
    (s t : Bytes) (c : ℕ) (cs : Bytes)
    → All (λ d. d ≢ b',') (c ∷ cs)
    → contains (s ++ b',' ∷ t) (c ∷ cs) ≡ (contains s (c ∷ cs) || contains t (c ∷ cs))
contains-comma [] t c cs h = ap (λ b. b || contains t (c ∷ cs)) (starts_with-comma [] t (c ∷ cs) h)
contains-comma (b ∷ bs) t c cs h =
    ap₂ (λ p q. p || q) (starts_with-comma (b ∷ bs) t (c ∷ cs) h) (contains-comma bs t c cs h)
    ∙ or_assoc (starts_with (b ∷ bs) (c ∷ cs)) (contains bs (c ∷ cs)) (contains t (c ∷ cs))

or_false : (b : Bool) → (b || false) ≡ b
or_false true = refl
or_false false = refl

dash : All (λ d. d ≢ b',') (codes "-13")
dash = (omega arith, (omega arith, (omega arith, tt)))

header :
    (text : Bytes)
    → split newline (codes "source,target,value" ++ newline ∷ text)
      ≡ codes "source,target,value" ∷ split newline text
unfolding split
header text = refl

-- No -13 spans the comma behind a name.
contains-edge : (e : Ends) → contains (key e) (codes "-13") ≡ is_hidden e
contains-edge e =
    contains-comma (e.source ++ b',' ∷ e.target) [] b'-' (codes "13") dash
    ∙ or_false (contains (e.source ++ b',' ∷ e.target) (codes "-13"))
    ∙ contains-comma e.source e.target b'-' (codes "13") dash

split-end : (sep : ℕ) (s : Bytes) → All (λ c. c ≢ sep) s → split sep s ≡ s ∷ []
unfolding split
split-end sep [] h = refl
split-end sep (c ∷ s) (h, hs) = ground (arith, split-end sep s hs)

key-append : (e : Ends) (t : Bytes) → key e ++ t ≡ e.source ++ b',' ∷ (e.target ++ b',' ∷ t)
key-append e t =
    append_assoc (e.source ++ b',' ∷ e.target) (b',' ∷ []) t
    ∙ append_assoc e.source (b',' ∷ e.target) (b',' ∷ t)

but_last-append : (ls : List Bytes) (l : Bytes) → but_last (ls ++ l ∷ []) ≡ ls
but_last-append [] l = refl
but_last-append (k ∷ []) l = refl
but_last-append (k ∷ j ∷ ls) l = ap (λ r. k ∷ r) (but_last-append (j ∷ ls) l)

module _ (show : ℕ → Bytes) (g : WaitForGraph) (plain : (n : ℕ) → All IsPlain (show n)) where
  -- The lines of the edges, without their newlines.
  abbrev line_of : Ends → Bytes
  line_of e = key e ++ show (weight_of g (key e))

  abbrev lines_of : List Ends → List Bytes
  lines_of [] = []
  lines_of (e ∷ es) = if is_hidden e then lines_of es else line_of e ∷ lines_of es

  read_row-line :
      (e : Ends)
      → ArePlain e
      → read_row (split b',' (line_of e))
        ≡ some (record { ends = e; value = show (weight_of g (key e)) })
  read_row-line e (p, q) =
      let n = weight_of g (key e) in
      ap (λ l. read_row (split b',' l)) (key-append e (show n))
      ∙ ap read_row (
          split-append b',' e.source (e.target ++ b',' ∷ show n) (All-commas e.source p)
          ∙ ap (λ ls. e.source ∷ ls)
              (split-append b',' e.target (show n) (All-commas e.target q)
                ∙ ap (λ ls. e.target ∷ ls)
                    (split-end b',' (show n) (All-commas (show n) (plain n)))))

  read_lines-rows :
      (es : List Ends)
      → All ArePlain es
      → read_lines (λ l. read_row (split b',' l)) (lines_of es) ≡ rows show g es
  unfolding read_lines
  read_lines-rows [] h = refl
  read_lines-rows (e ∷ es) (h, hs) = elim (Bool-cases (is_hidden e)) [
    | inl z ↦ rw z (read_lines-rows es hs)
    | inr z ↦
        rw (z, read_lines, read_row-line e h)
          (ap (λ r. record { ends = e; value = show (weight_of g (key e)) } ∷ r)
            (read_lines-rows es hs))
  ]

  line_of-newlines : (e : Ends) → ArePlain e → All (λ c. c ≢ newline) (line_of e)
  line_of-newlines e (p, q) =
      let n = weight_of g (key e) in
      let names =
        All-append _ e.source (b',' ∷ e.target) (All-newlines e.source p)
          (omega arith, All-newlines e.target q) in
      All-append _ (key e) (show n)
        (All-append _ (e.source ++ b',' ∷ e.target) (b',' ∷ []) names (omega arith, tt))
        (All-newlines (show n) (plain n))

  split-lines :
      (es : List Ends)
      → All ArePlain es
      → split newline (print_edges show g (keys es)) ≡ lines_of es ++ [] ∷ []
  unfolding print_edges split
  split-lines [] h = refl
  split-lines (e ∷ es) (h, hs) =
      let n = weight_of g (key e) in
      let rest = print_edges show g (keys es) in
      elim (Bool-cases (is_hidden e)) [
        | inl z ↦ rw (contains-edge e, z) (split-lines es hs)
        | inr z ↦
            rw (contains-edge e, z)
              (split-append newline (line_of e) rest (line_of-newlines e h)
                ∙ ap (λ ls. line_of e ∷ ls) (split-lines es hs))
      ]

  -- If no weight is printed with a comma or a newline: for every graph and every order of edges
  -- between names without commas and newlines, the file of the graph, cut into lines behind its
  -- header and each line at its commas, gives for each edge, in this order, its two names and its
  -- weight in the graph as it is printed, and leaves out just those edges of which one name has -13
  -- in it.
  pub output_wait_for_graph-rows :
      (es : List Ends)
      → All ArePlain es
      → read_graph (output_wait_for_graph show g (keys es)) ≡ rows show g es
  unfolding output_wait_for_graph
  output_wait_for_graph-rows es h =
      let text = print_edges show g (keys es) in
      ap (λ ls. read_lines (λ l. read_row (split b',' l)) (rest_of (but_last ls)))
        (header text ∙ ap (λ ls. codes "source,target,value" ∷ ls) (split-lines es h))
      ∙ ap (λ ls. read_lines (λ l. read_row (split b',' l)) (rest_of ls))
          (but_last-append (codes "source,target,value" ∷ lines_of es) [])
      ∙ read_lines-rows es h
