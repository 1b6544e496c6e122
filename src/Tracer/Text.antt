-- ===== src/Tracer/Text.antt =====
-- C strings, as the handlers of module/trace_wperf_events.c use them: a buffer is a list of bytes,
-- and a byte past the end of a list that stands for a string reads as the NUL behind it.
pub mod Laws
pub mod Tokens
use Prim.Native.Char.{code}
use Prim.Native.String.{String}
use w_perf_archived.Base.{
  ℕ, zero, suc, ◌≤◌, ◌≡◌, ◌≢◌, ◌⊎◌, Bool, true, false, Option, none, some, List, [], ◌∷◌, ◌++◌,
  ◌==◌, if◌then◌else◌, length, take, drop, replicate, All,
}

abbrev pub Bytes : Type 0
Bytes = List ℕ

-- The bytes of an ASCII literal.
abbrev pub codes : String → Bytes
codes String.[] = []
codes (String.◌∷◌ c s) = code c ∷ codes s

abbrev pub comma : ℕ
comma = b','

abbrev pub newline : ℕ
newline = 10

-- The string that starts a buffer: its bytes before the first NUL.
unfoldable pub cstr : Bytes → Bytes
cstr [] = []
cstr (c ∷ s) = if c == 0 then [] else c ∷ cstr s

-- `strncpy(dst, src, n)`: at most `n` bytes of `src`, filled up to `n` with NULs.
unfoldable pub strncpy : Bytes → Bytes → ℕ → Bytes
strncpy dst src n = take n (src ++ replicate n 0) ++ drop n dst

abbrev pub first : Bytes → ℕ
first [] = 0
first (c ∷ s) = c

abbrev pub rest : Bytes → Bytes
rest [] = []
rest (c ∷ s) = s

-- `!strncmp(a, b, n)`.
unfoldable pub strncmp_eq : ℕ → Bytes → Bytes → Bool
strncmp_eq zero a b = true
strncmp_eq (suc n) a b =
    let more = strncmp_eq n (rest a) (rest b) in
    if first a == first b then (if first a == 0 then true else more) else false

-- One call of `strsep(&s, ",")` where `s` is not NULL: the token, and the new `s`.
unfoldable pub strsep : Bytes → Bytes × Option Bytes
strsep [] = ([], none)
strsep (c ∷ s) = let (token, s') = strsep s in if c == comma then ([], some s) else (c ∷ token, s')

-- The tokens that the calls of a `while (1)` loop return before the NULL that ends it.
unfoldable pub tokens : ℕ → Option Bytes → List Bytes
tokens zero s = []
tokens (suc fuel) none = []
tokens (suc fuel) (some s) = let (token, s') = strsep s in token ∷ tokens fuel s'

-- Each call but the last takes a comma away, so this many calls reach the NULL.
unfoldable pub all_tokens : Bytes → List Bytes
unfolding strsep tokens
all_tokens s = tokens (suc (suc (length s))) (some s)

abbrev pub IsText : Bytes → Type 0
IsText = All (λ c. c ≢ 0)

abbrev pub IsGraph : ℕ → Type 0
IsGraph c = (33 ≤ c) × (c ≤ 126)

-- `isspace`, for ASCII.
abbrev pub IsBlank : ℕ → Type 0
IsBlank c = (c ≡ 32) ⊎ ((9 ≤ c) × (c ≤ 13))

-- The texts with a comma behind each.
unfoldable pub with_commas : List Bytes → Bytes
with_commas [] = []
with_commas (t ∷ ts) = t ++ comma ∷ with_commas ts

-- The texts with a comma between each two.
unfoldable pub join : List Bytes → Bytes
join [] = []
join (t ∷ []) = t
join (t ∷ u ∷ ts) = t ++ comma ∷ join (u ∷ ts)
