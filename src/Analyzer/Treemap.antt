-- ===== src/Analyzer/Treemap.antt =====
-- The tree map that the analyzer takes from a vendored library, as a parameter: its operations over
-- keys of type uint64, and what they do to the list of its entries in the order of the iterator.
-- `Floor` and `Ceiling` give `none` where the library gives nil.
pub mod Laws
use w_perf_archived.Base.{
  ℕ, ◌≡◌, Bool, true, false, Option, none, some, List, [], ◌∷◌, ltb, leb, ◌==◌, if◌then◌else◌,
}

module _ {V : Type 0} where
  -- The entries with the value of a key replaced, or with a new key at its place.
  abbrev pub insert : ℕ → V → List (ℕ × V) → List (ℕ × V)
  insert k v [] = (k, v) ∷ []
  insert k v ((j, w) ∷ es) =
      if ltb k j
      then (k, v) ∷ (j, w) ∷ es
      else if k == j
      then (k, v) ∷ es
      else (j, w) ∷ insert k v es

  abbrev pub or_last : Option (ℕ × V) → ℕ × V → Option (ℕ × V)
  or_last none e = some e
  or_last (some e') e = some e'

  -- The entry with the greatest key up to `k`.
  abbrev pub floor_in : ℕ → List (ℕ × V) → Option (ℕ × V)
  floor_in k [] = none
  floor_in k ((j, w) ∷ es) = if leb j k then or_last (floor_in k es) (j, w) else none

  -- The entry with the least key from `k` on.
  abbrev pub ceiling_in : ℕ → List (ℕ × V) → Option (ℕ × V)
  ceiling_in k [] = none
  ceiling_in k ((j, w) ∷ es) = if leb k j then some (j, w) else ceiling_in k es

pub record Treemap (V : Type 0) : Type 1 where
  pub Tree : Type 0
  pub new_with : Tree
  pub put : ℕ → V → Tree → Tree
  pub floor : ℕ → Tree → Option (ℕ × V)
  pub ceiling : ℕ → Tree → Option (ℕ × V)
  pub entries : Tree → List (ℕ × V)
  pub entries-new_with : entries new_with ≡ []
  pub entries-put : (k : ℕ) (v : V) (t : Tree) → entries (put k v t) ≡ insert k v (entries t)
  pub floor-entries : (k : ℕ) (t : Tree) → floor k t ≡ floor_in k (entries t)
  pub ceiling-entries : (k : ℕ) (t : Tree) → ceiling k t ≡ ceiling_in k (entries t)
