-- ===== src/Analyzer/Files/Pids.antt =====
-- The file of pids, written and read again.
use w_perf_archived.Base.{ℕ, ℤ, ◌≡◌, ◌≢◌, refl, ap, Option, some, List, [], ◌∷◌, ◌++◌, All, arith}
use w_perf_archived.Tracer.Text.{Bytes, newline}
use w_perf_archived.Analyzer.Files.{split, trim_newline, read_pids, add_pid, pids}

-- A byte of a number.
abbrev pub IsPlain : ℕ → Type 0
IsPlain c = (c ≢ b',') × (c ≢ b'\n')

-- The pids with a comma between each two, and a newline behind the last.
abbrev pub written : (ℤ → Bytes) → ℤ → List ℤ → Bytes
written show v [] = show v ++ newline ∷ []
written show v (u ∷ us) = show v ++ b',' ∷ written show u us

pub split-append :
    (sep : ℕ) (s t : Bytes) → All (λ c. c ≢ sep) s → split sep (s ++ sep ∷ t) ≡ s ∷ split sep t
unfolding split
split-append sep [] t h = ground arith
split-append sep (c ∷ s) t (h, hs) = ground (arith, split-append sep s t hs)

-- A plain text has no comma and no newline.
pub All-commas : (s : Bytes) → All IsPlain s → All (λ c. c ≢ b',') s
All-commas [] h = tt
All-commas (c ∷ s) ((h, k), hs) = (h, All-commas s hs)

pub All-newlines : (s : Bytes) → All IsPlain s → All (λ c. c ≢ newline) s
All-newlines [] h = tt
All-newlines (c ∷ s) ((h, k), hs) = (k, All-newlines s hs)

split-line : (s : Bytes) → All IsPlain s → split b',' (s ++ newline ∷ []) ≡ (s ++ newline ∷ []) ∷ []
unfolding split
split-line [] h = refl
split-line (c ∷ s) ((h, k), hs) = ground (arith, split-line s hs)

trim_newline-append : (s : Bytes) → trim_newline (s ++ newline ∷ []) ≡ s
trim_newline-append [] = refl
trim_newline-append (c ∷ []) = refl
trim_newline-append (c ∷ d ∷ s) = ap (λ l. c ∷ l) (trim_newline-append (d ∷ s))

trim_newline-plain : (s : Bytes) → All IsPlain s → trim_newline s ≡ s
trim_newline-plain [] h = refl
trim_newline-plain (c ∷ []) ((h, k), _) = ground arith
trim_newline-plain (c ∷ d ∷ s) (h, hs) = ap (λ l. c ∷ l) (trim_newline-plain (d ∷ s) hs)

-- If each number is read back from what it is written as, without commas and newlines, then a list
-- of one pid or more, written with a comma between each two and a newline behind the last, is read
-- back whole.
pub pids-written :
    (show : ℤ → Bytes) (atoi : Bytes → Option ℤ) (v : ℤ) (vs : List ℤ)
    → ((u : ℤ) → atoi (show u) ≡ some u)
    → ((u : ℤ) → All IsPlain (show u))
    → pids atoi (written show v vs) ≡ some (v ∷ vs)
unfolding pids read_pids
pids-written show atoi v [] reads plain =
    rw (split-line (show v) (plain v), trim_newline-append (show v), reads v) refl
pids-written show atoi v (u ∷ us) reads plain =
    rw
      (
        split-append b',' (show v) (written show u us) (All-commas (show v) (plain v)),
        trim_newline-plain (show v) (plain v),
        reads v,
      )
      (ap (add_pid (some v)) (pids-written show atoi u us reads plain))
