-- ===== src/Analyzer/Soft.antt =====
-- The softirq spans of a trace, of analyzer/src/analyzer/lib/events/soft.go.
-- An int of Go is an integer; no arithmetic is done on those here.
pub mod Nearest
use w_perf_archived.Base.{
  ℕ, ℤ, ◌==ℤ◌, Bool, true, false, Option, none, some, List, [], ◌∷◌, if◌then◌else◌,
}
use w_perf_archived.Analyzer.Treemap.{Treemap}

pub record Soft : Type 0 where
  pub cpu : ℤ
  pub stime : ℕ
  pub etime : ℕ

abbrev pub value_of {ℓ} : {V : Type ℓ} → Option (ℕ × V) → Option V
value_of none = none
value_of (some (k, v)) = some v

module _ (M : Treemap Soft) where
  -- `SoftMap`: the map from CPUs to tree maps, `none` where no CPU is.
  abbrev pub SoftMap : Type 0
  SoftMap = ℤ → Option M.Tree

  abbrev pub no_softs : SoftMap
  no_softs cpu = none

  abbrev pub tree_or_new : Option M.Tree → M.Tree
  tree_or_new none = M.new_with
  tree_or_new (some t) = t

  -- One round of the loop of `Init`.
  unfoldable pub put_soft : Soft → SoftMap → SoftMap
  put_soft v s cpu = if v.cpu ==ℤ cpu then some (M.put v.etime v (tree_or_new (s v.cpu))) else s cpu

  unfoldable pub init_soft_container : List Soft → SoftMap → SoftMap
  unfolding put_soft
  init_soft_container [] s = s
  init_soft_container (v ∷ vs) s = init_soft_container vs (put_soft v s)

  abbrev pub ceiling_of : ℕ → Option M.Tree → Option Soft
  ceiling_of time none = none
  ceiling_of time (some m) = value_of (M.ceiling time m)

  unfoldable pub get_ceiling_soft : SoftMap → ℤ → ℕ → Option Soft
  get_ceiling_soft s cpu time = ceiling_of time (s cpu)
