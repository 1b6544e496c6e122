-- ===== src/Tracer/Tx/Pids.antt =====
-- Sets of pids: lists up to order and repetition, which is what a write to `filter` of `tx_stat` is
-- about.
use mathlib.Core.Quot
use mathlib.Core.Quot.{Quot, Quot-set}
use w_perf_archived.Base.{ℕ, ◌≡◌, ap, ◌∙◌, Bool, false, ◌||◌, List, [], ◌∷◌, ◌++◌, ◌==◌, arith}

abbrev pub among : ℕ → List ℕ → Bool
among n [] = false
among n (p ∷ ps) = p == n || among n ps

pub among-append : (n : ℕ) (ps qs : List ℕ) → among n (ps ++ qs) ≡ among n qs || among n ps
among-append n [] qs = ground arith
among-append n (p ∷ ps) qs = ap (λ b. p == n || b) (among-append n ps qs) ∙ ground arith

abbrev pub SamePids : List ℕ → List ℕ → Type 0
SamePids ps qs = (n : ℕ) → among n ps ≡ among n qs

abbrev pub Pids : Type 0
Pids = Quot SamePids

abbrev pub pids_of : List ℕ → Pids
pids_of = Quot.mk

unfoldable pub member : ℕ → Pids → Bool
member n = Quot.lift (hlevel) (among n) λ ps qs h. h n

-- The members of a list as well.
unfoldable pub add_list : List ℕ → Pids → Pids
add_list ps =
    Quot.lift Quot-set (λ qs. pids_of (ps ++ qs))
      λ qs rs h. Quot.sound λ n. simp (among-append, h n)

-- Two sets with the same members are equal.
pub Pids-ext : (a b : Pids) → ((n : ℕ) → member n a ≡ member n b) → a ≡ b
unfolding member
Pids-ext = Quot.ind (λ _. hlevel Quot-set) λ ps. Quot.ind (λ _. hlevel Quot-set) λ qs. Quot.sound

pub member-add_list :
    (n : ℕ) (ps : List ℕ) (a : Pids) → member n (add_list ps a) ≡ member n a || among n ps
unfolding member add_list
member-add_list n ps = Quot.ind (λ _. hlevel) (among-append n ps)
