-- ===== src/Analyzer/Treemap/Laws.antt =====
-- Lists of entries with rising keys.
use w_perf_archived.Base.{ℕ, ◌<◌, List, [], ◌∷◌, arith}
use w_perf_archived.Analyzer.Treemap.{insert}

module _ {V : Type 0} where
  -- The keys rise, from above `b` on.
  abbrev pub Above : ℕ → List (ℕ × V) → Type 0
  Above b [] = Unit
  Above b ((k, v) ∷ es) = (b < k) × Above k es

  abbrev pub Rising : List (ℕ × V) → Type 0
  Rising [] = Unit
  Rising ((k, v) ∷ es) = Above k es

  pub Above-insert :
      (b k : ℕ) (v : V) (es : List (ℕ × V)) → b < k → Above b es → Above b (insert k v es)
  Above-insert b k v [] h r = (h, tt)
  Above-insert b k v ((j, w) ∷ es) h (p, r) = ground (arith, Above-insert j k v es)

  pub Rising-insert : (k : ℕ) (v : V) (es : List (ℕ × V)) → Rising es → Rising (insert k v es)
  Rising-insert k v [] r = tt
  Rising-insert k v ((j, w) ∷ es) r = ground (arith, Above-insert j k v es)
