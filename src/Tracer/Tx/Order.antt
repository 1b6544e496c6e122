-- ===== src/Tracer/Tx/Order.antt =====
-- A write to `filter` of `tx_stat` is about a set: neither the order of its pids nor how often it
-- names one matters.
use w_perf_archived.Base.{ℕ, ◌≡◌, sym, ap, ◌∙◌, ◌||◌, true, none, some, List}
use w_perf_archived.Tracer.Text.{Bytes}
use w_perf_archived.Tracer.Kernel.{Kernel, ok}
use w_perf_archived.Tracer.Tx.{Tx, tx_stats_filter_write}
use w_perf_archived.Tracer.Tx.Pids.{pids_of, member}
use w_perf_archived.Tracer.Tx.Filter.{PidsOf, tx_stats_filter_write-ok}

-- Two states with the same fields.
Tx-ext :
    {t u : Tx}
    → ((n : ℕ) → t.filter n ≡ u.filter n)
    → t.tx_stats ≡ u.tx_stats
    → t.tx_enabled ≡ u.tx_enabled
    → t.probes ≡ u.probes
    → t ≡ u
Tx-ext f s e p i = record { filter = λ n. f n i; tx_stats = s i; tx_enabled = e i; probes = p i }

-- Two texts of which each token that is not empty is a number whose low 32 bits are a pid of the
-- bitmap, and that name the same set of pids so, in whatever order and however often, where memory
-- is found for their copies: writing one comes to the same result and the same state as writing the
-- other.
pub tx_stats_filter_write-order :
    (K : Kernel) (text text' : Bytes) (t : Tx) (ps qs : List ℕ)
    → PidsOf K text ps none
    → PidsOf K text' qs none
    → pids_of ps ≡ pids_of qs
    → tx_stats_filter_write K true text t ≡ tx_stats_filter_write K true text' t
unfolding member
tx_stats_filter_write-order K text text' t ps qs r r' same =
    let (u, e, f, s, b, p) = tx_stats_filter_write-ok K text t ps r in
    let (u', e', f', s', b', p') = tx_stats_filter_write-ok K text' t qs r' in
    e
    ∙ ap (λ (v : Tx). some (ok 0, v))
        (Tx-ext (λ n. f n ∙ ap (λ c. t.filter n || c) (ap (member n) same) ∙ sym (f' n))
          (s ∙ sym s') (b ∙ sym b') (p ∙ sym p'))
    ∙ sym e'
