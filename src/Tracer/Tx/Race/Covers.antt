-- ===== src/Tracer/Tx/Race/Covers.antt =====
-- What a write to `filter` and one that enables `tx_stat` are about to switch on, wherever they stand.
use w_perf_archived.Base.{◌≡◌, refl, ap, ◌∙◌, Bool, true, false, List, [], ◌∷◌, arith}
use w_perf_archived.Tracer.Kernel.{ok}
use w_perf_archived.Tracer.Tx.{Tx, Probes}
use w_perf_archived.Tracer.Tx.Count.{Hook}
use w_perf_archived.Tracer.Tx.Filter.{all_probes}
use w_perf_archived.Tracer.Tx.Race.{AtFilter, AtEnable, switch_probe}

abbrev arm_all : List Hook → Probes → Probes
arm_all [] p = p
arm_all (h ∷ hs) p = arm_all hs (switch_probe h true p)

-- With the probes `hs`, all are on.
abbrev pub CoveredBy : List Hook → Probes → Type 0
CoveredBy hs p = arm_all hs p ≡ all_probes true

switch_probe_comm :
    (h k : Hook) (p : Probes)
    → switch_probe h true (switch_probe k true p) ≡ switch_probe k true (switch_probe h true p)
switch_probe_comm h k p = ground arith

switch_probe-all : (h : Hook) → switch_probe h true (all_probes true) ≡ all_probes true
switch_probe-all h = ground arith

arm_all-switch_probe :
    (h : Hook) (hs : List Hook) (p : Probes)
    → arm_all hs (switch_probe h true p) ≡ switch_probe h true (arm_all hs p)
arm_all-switch_probe h [] p = refl
arm_all-switch_probe h (k ∷ hs) p =
    ap (arm_all hs) (switch_probe_comm k h p) ∙ arm_all-switch_probe h hs (switch_probe k true p)

-- Switching one more on loses nothing.
pub switch_probe-CoveredBy :
    (h : Hook) (hs : List Hook) (p : Probes) → CoveredBy hs p → CoveredBy hs (switch_probe h true p)
switch_probe-CoveredBy h hs p c =
    arm_all-switch_probe h hs p ∙ ap (switch_probe h true) c ∙ switch_probe-all h

CoveredBy-all : (hs : List Hook) → CoveredBy hs (all_probes true)
CoveredBy-all [] = refl
CoveredBy-all (h ∷ hs) = ap (arm_all hs) (switch_probe-all h) ∙ CoveredBy-all hs

-- The writer to `enable` is not on the way to switch off, and the flag is set once it has been.
abbrev pub IsEnabling : AtEnable → Bool → Type 0
IsEnabling AtEnable.setting b = Unit
IsEnabling AtEnable.switching b = b ≡ true
IsEnabling (AtEnable.arming hs) b = b ≡ true
IsEnabling AtEnable.done b = b ≡ true
IsEnabling _ b = ⊥

-- What it will have switched on, together with what is on, are all the probes.
abbrev pub WillCover : AtEnable → Probes → Type 0
WillCover (AtEnable.arming hs) p = CoveredBy hs p
WillCover AtEnable.done p = p ≡ all_probes true
WillCover _ p = Unit

-- So it is for the writer to `filter` that has read the flag as set, and for the one that has
-- returned.
abbrev pub FilterCovers : AtFilter → AtEnable → Probes → Type 0
FilterCovers (AtFilter.arming hs) e p = CoveredBy hs p
FilterCovers (AtFilter.returned (ok n)) e p = WillCover e p
FilterCovers _ e p = Unit

abbrev pub Safe : AtFilter → AtEnable → Tx → Type 0
Safe f e t = IsEnabling e t.tx_enabled × FilterCovers f e t.probes

pub WillCover-all : (e : AtEnable) (p : Probes) → p ≡ all_probes true → WillCover e p
WillCover-all (AtEnable.arming hs) p h = ap (arm_all hs) h ∙ CoveredBy-all hs
WillCover-all AtEnable.done p h = h
WillCover-all AtEnable.setting p h = tt
WillCover-all AtEnable.switching p h = tt
WillCover-all AtEnable.zeroing p h = tt
WillCover-all (AtEnable.disarming hs) p h = tt

-- Where the flag is not set, the writer to `enable` has not begun.
pub WillCover-unset :
    (e : AtEnable) (b : Bool) (p : Probes) → b ≡ false → IsEnabling e b → WillCover e p
WillCover-unset AtEnable.setting b p h i = tt
WillCover-unset AtEnable.switching b p h i = tt
WillCover-unset (AtEnable.arming hs) b p h i = absurd (cc)
WillCover-unset AtEnable.done b p h i = absurd (cc)
WillCover-unset AtEnable.zeroing b p h i = tt
WillCover-unset (AtEnable.disarming hs) b p h i = tt
