-- ===== src/Tracer/Text/Tokens.antt =====
-- What the loop over `strsep` yields.
use w_perf_archived.Base.{
  sym, Bool-cases, inl, inr, ℕ, zero, suc, ◌+◌, ◌<◌, ◌≡◌, ◌≢◌, refl, List, [], ◌∷◌, ◌++◌, arith,
  length, All, some, append_assoc, All-append, ◌==◌, if◌then◌else◌,
}
use w_perf_archived.Tracer.Text.{
  Bytes, comma, strsep, IsText, IsGraph, tokens, all_tokens, with_commas, join,
}

-- The text cut at each comma, by recursion on the text.
on_first : ℕ → List Bytes → List Bytes
on_first c [] = (c ∷ []) ∷ []
on_first c (t ∷ ts) = (c ∷ t) ∷ ts

pub split : Bytes → List Bytes
unfolding on_first
split [] = [] ∷ []
split (c ∷ s) = if c == comma then [] ∷ split s else on_first c (split s)

tokens-split : (f : ℕ) (s : Bytes) → length s + 1 < f → tokens f (some s) ≡ split s
unfolding tokens strsep split
tokens-split zero s h = elim h [ ]
tokens-split (suc zero) s h = absurd (omega arith)
tokens-split (suc (suc f)) [] h = refl
tokens-split (suc (suc f)) (c ∷ s) h =
    ground (arith, tokens-split (suc f) s, tokens-split (suc (suc f)) s)

-- The calls of `strsep` that the fuel allows for are enough.
pub all_tokens-split : (s : Bytes) → all_tokens s ≡ split s
unfolding all_tokens
all_tokens-split s = tokens-split (suc (suc (length s))) s (omega arith)

abbrev pub Lacks : ℕ → Bytes → Type 0
Lacks c = All (λ x. x ≢ c)

-- A name for the lists that these handlers read and write: not empty, printable, and no comma.
pub record IsToken (t : Bytes) : Type 0 where
  pub filled : 0 < length t
  pub graph : All IsGraph t
  pub single : Lacks comma t

split-single : (t : Bytes) → Lacks comma t → split t ≡ t ∷ []
unfolding split
split-single [] h = refl
split-single (c ∷ t) (hc, ht) = ground (arith, split-single t ht)

split-append : (t s : Bytes) → Lacks comma t → split (t ++ comma ∷ s) ≡ t ∷ split s
unfolding split
split-append [] s h = refl
split-append (c ∷ t) s (hc, ht) = ground (arith, split-append t s ht)

split-join :
    (t : Bytes) (ts : List Bytes) → All (Lacks comma) (t ∷ ts) → split (join (t ∷ ts)) ≡ t ∷ ts
unfolding join
split-join t [] (h, _) = split-single t h
split-join t (u ∷ ts) (h, hs) = rw (split-append t _ h, split-join u ts hs)

All-Lacks : (ts : List Bytes) → All IsToken ts → All (Lacks comma) ts
All-Lacks [] h = tt
All-Lacks (t ∷ ts) (h, hs) = (h.single, All-Lacks ts hs)

-- A list that was written with commas is cut into the texts that it was made of.
pub all_tokens-join :
    (t : Bytes) (ts : List Bytes) → All IsToken (t ∷ ts) → all_tokens (join (t ∷ ts)) ≡ t ∷ ts
all_tokens-join t ts h = rw all_tokens-split (split-join t ts (All-Lacks (t ∷ ts) h))

IsGraph-append : (s t : Bytes) → All IsGraph s → All IsGraph t → All IsGraph (s ++ comma ∷ t)
IsGraph-append s t hs ht = All-append IsGraph s (comma ∷ t) hs (omega arith, ht)

-- Such a list holds no white space.
pub join-IsGraph : (ts : List Bytes) → All IsToken ts → All IsGraph (join ts)
unfolding join
join-IsGraph [] h = tt
join-IsGraph (t ∷ []) (h, _) = h.graph
join-IsGraph (t ∷ u ∷ ts) (h, hs) = IsGraph-append t _ h.graph (join-IsGraph (u ∷ ts) hs)

-- `for` over all texts but the last, and the last one by itself.
pub with_commas-join : (ts : List Bytes) (u : Bytes) → with_commas ts ++ u ≡ join (ts ++ u ∷ [])
unfolding with_commas join
with_commas-join [] u = refl
with_commas-join (t ∷ []) u = append_assoc t (comma ∷ []) u
with_commas-join (t ∷ v ∷ ts) u =
    rw (← with_commas-join (v ∷ ts) u) (append_assoc t (comma ∷ with_commas (v ∷ ts)) u)

on_first-IsText : (c : ℕ) (ts : List Bytes) → c ≢ 0 → All IsText ts → All IsText (on_first c ts)
unfolding on_first
on_first-IsText c [] hc hs = ((hc, tt), tt)
on_first-IsText c (t ∷ ts) hc (h, hs) = ((hc, h), hs)

split-IsText : (s : Bytes) → IsText s → All IsText (split s)
unfolding split
split-IsText [] h = (tt, tt)
split-IsText (c ∷ s) (hc, hs) = elim (Bool-cases (c == comma)) [
  | inl e ↦ rw e (tt, split-IsText s hs)
  | inr e ↦ rw e (on_first-IsText c (split s) hc (split-IsText s hs))
]

-- The tokens of a C string are C strings.
pub all_tokens-IsText : (s : Bytes) → IsText s → All IsText (all_tokens s)
all_tokens-IsText s h = rw all_tokens-split (split-IsText s h)

pub with_commas-append :
    (ts : List Bytes) (t : Bytes) → with_commas (ts ++ t ∷ []) ≡ with_commas ts ++ (t ++ comma ∷ [])
unfolding with_commas
with_commas-append [] t = refl
with_commas-append (u ∷ ts) t =
    rw (with_commas-append ts t) (sym (append_assoc u (comma ∷ with_commas ts) (t ++ comma ∷ [])))

pub with_commas-end :
    (t : Bytes) (ts : List Bytes) → with_commas (t ∷ ts) ≡ join (t ∷ ts) ++ comma ∷ []
unfolding with_commas join
with_commas-end t [] = refl
with_commas-end t (u ∷ ts) =
    rw (with_commas-end u ts) (sym (append_assoc t (comma ∷ join (u ∷ ts)) (comma ∷ [])))
