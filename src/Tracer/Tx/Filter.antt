-- ===== src/Tracer/Tx/Filter.antt =====
-- What a write to `filter` of `tx_stat` does, for every text.
use native.Mathlib.Decide.{dec_lt}
use w_perf_archived.Base.{
  lt→ltb, le→ltb, ℕ, ◌<◌, ◌≤◌, ◌≡◌, refl, ap, ◌∙◌, Bool, true, false, Option, none, some, List, [],
  ◌∷◌, arith, inl, inr, ◌||◌, if◌then◌else◌,
}
use w_perf_archived.Tracer.Text.{Bytes, all_tokens}
use w_perf_archived.Tracer.Kernel.{
  Kernel, Errno, Parsed, Parsed-cases, value, bad, Ret, ok, fail, einval,
}
use w_perf_archived.Tracer.Disk.{is_empty}
use w_perf_archived.Tracer.Tx.Pids.{among}
use w_perf_archived.Tracer.Tx.{
  Tx, Probes, as_int, switch_off, switch_on, set_bit, cleared, add_pids, resume, filter_done,
  tx_stats_filter_write, enable_tx_stat_probes, disable_tx_stat_probes,
}

-- What the tokens of a write stand for: pids, each the low 32 bits of a number, up to the end or to
-- the first token that does not stand for a pid of the bitmap. An empty token stands for nothing.
pub data Reads (K : Kernel) : List Bytes → List ℕ → Option Parsed → Type 0 where
  done : Reads K [] [] none
  skip :
      {ss : List Bytes} {ps : List ℕ} {o : Option Parsed} → Reads K ss ps o → Reads K ([] ∷ ss) ps o
  pid :
      {s : Bytes} {ss : List Bytes} {n p : ℕ} {ps : List ℕ} {o : Option Parsed}
      → is_empty s ≡ false
      → K.kstrtoul s ≡ value n
      → as_int n ≡ p
      → p < K.pid_max
      → Reads K ss ps o
      → Reads K (s ∷ ss) (p ∷ ps) o
  beyond :
      {s : Bytes} {ss : List Bytes} {p : ℕ}
      → is_empty s ≡ false
      → K.kstrtoul s ≡ value p
      → K.pid_max ≤ as_int p
      → Reads K (s ∷ ss) [] (some (value p))
  wrong :
      {s : Bytes} {ss : List Bytes} {e : Errno}
      → is_empty s ≡ false
      → K.kstrtoul s ≡ bad e
      → Reads K (s ∷ ss) [] (some (bad e))

-- Every list of tokens is read in one of these ways.
pub Reads-total :
    (K : Kernel) (ss : List Bytes) → (ps : List ℕ) × (o : Option Parsed) × Reads K ss ps o
Reads-total K [] = ([], none, done)
Reads-total K ([] ∷ ss) = let (ps, o, r) = Reads-total K ss in (ps, o, skip r)
Reads-total K ((c ∷ s) ∷ ss) =
    let (ps, o, r) = Reads-total K ss in
    elim (Parsed-cases (K.kstrtoul (c ∷ s))) [
      | inl (e, h) ↦ ([], some (bad e), wrong refl h)
      | inr (p, h) ↦ elim (dec_lt (as_int p) K.pid_max) [
        | yes lt ↦ (as_int p ∷ ps, o, pid refl h refl lt r)
        | no ge ↦ ([], some (value p), beyond refl h (omega arith))
      ]
    ]

add_all : List ℕ → Tx → Tx
add_all [] t = t
add_all (p ∷ ps) t = add_all ps (set_bit p t)

-- The result of the loop, by how its tokens are read.
abbrev expected : Option Parsed → Tx → Option (Ret × Tx)
expected none t = some (ok 0, t)
expected (some (value p)) t = none
expected (some (bad e)) t = some (cleared t)

add_pids-Reads :
    (K : Kernel) (t : Tx) {ss : List Bytes} {ps : List ℕ} {o : Option Parsed}
    → Reads K ss ps o
    → add_pids K ss t ≡ expected o (add_all ps t)
unfolding add_pids add_all
add_pids-Reads K t done = refl
add_pids-Reads K t (skip r) = add_pids-Reads K t r
add_pids-Reads K t (pid {p} h k c lt r) =
    rw (h, k, c, lt→ltb p K.pid_max lt) (add_pids-Reads K (set_bit p t) r)
add_pids-Reads K t (beyond {p} h k ge) = rw (h, k, le→ltb (as_int p) K.pid_max ge)
add_pids-Reads K t (wrong h k) = rw (h, k)

add_all-filter : (ps : List ℕ) (t : Tx) (n : ℕ) → (add_all ps t).filter n ≡ t.filter n || among n ps
unfolding add_all
add_all-filter [] t n = ground arith
add_all-filter (p ∷ ps) t n = add_all-filter ps (set_bit p t) n ∙ ground arith

add_all-rest :
    (ps : List ℕ) (t : Tx)
    → ((add_all ps t).tx_stats ≡ t.tx_stats)
      × ((add_all ps t).tx_enabled ≡ t.tx_enabled)
      × ((add_all ps t).probes ≡ t.probes)
unfolding add_all
add_all-rest [] t = (refl, refl, refl)
add_all-rest (p ∷ ps) t = add_all-rest ps (set_bit p t)

-- All five probes on, or all off.
abbrev pub all_probes : Bool → Probes
all_probes b = record {
  tcp_sendmsg = b;
  udp_sendmsg = b;
  tcp_sendpage = b;
  udp_sendpage = b;
  sock_sendmsg = b;
}

pub resume-probes :
    (t : Tx) (b : Bool)
    → t.tx_enabled ≡ b
    → t.probes ≡ all_probes false
    → (resume t).probes ≡ all_probes b
unfolding enable_tx_stat_probes
resume-probes t b e off = ground arith

pub resume-rest :
    (t : Tx)
    → ((resume t).filter ≡ t.filter)
      × ((resume t).tx_stats ≡ t.tx_stats)
      × ((resume t).tx_enabled ≡ t.tx_enabled)
resume-rest t = ground arith

pub off-probes : (t : Tx) → (switch_off t).probes ≡ all_probes false
unfolding disable_tx_stat_probes
off-probes t = refl

pub switch_by :
    (t : Tx) (b : Bool)
    → (if b then switch_on (switch_off t) else switch_off t) ≡ record t { probes = all_probes b }
unfolding enable_tx_stat_probes disable_tx_stat_probes
switch_by t true = refl
switch_by t false = refl

-- `resume` after `disable_tx_stat_probes`.
pub resume-off : (t : Tx) → resume (switch_off t) ≡ record t { probes = all_probes t.tx_enabled }
resume-off t = switch_by t t.tx_enabled

abbrev pub PidsOf : Kernel → Bytes → List ℕ → Option Parsed → Type 0
PidsOf K text ps o = Reads K (all_tokens (K.strstrip text)) ps o

module _ (K : Kernel) (text : Bytes) (t : Tx) (ps : List ℕ) where
  -- If every token that is not empty is a number whose low 32 bits are below the size of the
  -- bitmap, the write succeeds and these are added to the pids that are watched: none is taken out. The counters are not
  -- touched, and the probes are on afterwards exactly if the event is enabled.
  pub tx_stats_filter_write-ok :
      PidsOf K text ps none
      → (t' : Tx) × (tx_stats_filter_write K true text t ≡ some (ok 0, t'))
        × ((n : ℕ) → t'.filter n ≡ t.filter n || among n ps)
        × (t'.tx_stats ≡ t.tx_stats)
        × (t'.tx_enabled ≡ t.tx_enabled)
        × (t'.probes ≡ all_probes t.tx_enabled)
  unfolding tx_stats_filter_write
  tx_stats_filter_write-ok r =
      let u = add_all ps (switch_off t) in
      let (stats, enabled, probes) = add_all-rest ps (switch_off t) in
      let (same, stats', enabled') = resume-rest u in
      (
        resume u,
        ap filter_done (add_pids-Reads K (switch_off t) r),
        (λ n. ap (λ (f : ℕ → Bool). f n) same ∙ add_all-filter ps (switch_off t) n),
        stats' ∙ stats,
        enabled' ∙ enabled,
        resume-probes u t.tx_enabled enabled (probes ∙ off-probes t),
      )

  -- At the first token that `kstrtoul` refuses, with only pids of the bitmap before it, the write
  -- fails with -EINVAL: no pid is watched afterwards, also none that was before, and the probes are
  -- off, also where the event is enabled; the counters stay.
  pub tx_stats_filter_write-wrong :
      (e : Errno)
      → PidsOf K text ps (some (bad e))
      → (t' : Tx) × (tx_stats_filter_write K true text t ≡ some (fail einval, t'))
        × ((n : ℕ) → t'.filter n ≡ false)
        × (t'.tx_stats ≡ t.tx_stats)
        × (t'.tx_enabled ≡ t.tx_enabled)
        × (t'.probes ≡ all_probes false)
  unfolding tx_stats_filter_write
  tx_stats_filter_write-wrong e r =
      let u = add_all ps (switch_off t) in
      let (stats, enabled, probes) = add_all-rest ps (switch_off t) in
      (
        (cleared u).1,
        ap filter_done (add_pids-Reads K (switch_off t) r),
        (λ n. refl),
        stats,
        enabled,
        probes ∙ off-probes t,
      )

  -- A number whose low 32 bits are no pid of the bitmap, with only pids of the bitmap before it, is not refused:
  -- its bit lies outside.
  pub tx_stats_filter_write-beyond :
      (p : ℕ) → PidsOf K text ps (some (value p)) → tx_stats_filter_write K true text t ≡ none
  unfolding tx_stats_filter_write
  tx_stats_filter_write-beyond p r = ap filter_done (add_pids-Reads K (switch_off t) r)
