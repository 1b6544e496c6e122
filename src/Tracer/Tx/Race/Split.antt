-- ===== src/Tracer/Tx/Race/Split.antt =====
-- What the two writers of `tx_stat` can do to each other.
use w_perf_archived.Base.{ℕ, ◌%◌, ◌≡◌, refl, true, false, some, List, [], ◌∷◌, ◌++◌, arith}
use w_perf_archived.Tracer.Kernel.{Kernel, ok}
use w_perf_archived.Tracer.Tx.{Tx, Probes}
use w_perf_archived.Tracer.Tx.Count.{Hook}
use w_perf_archived.Tracer.Tx.Race.{
  AtFilter, AtEnable, Turn, both, both_run, filter_next, enable_next, hooks, switch_probe,
}
use w_perf_archived.Tracer.Tx.Race.Alone.{only}

switch_probe_comm :
    (h k : Hook) (p : Probes)
    → switch_probe h true (switch_probe k true p) ≡ switch_probe k true (switch_probe h true p)
switch_probe_comm h k p = ground arith

-- A write of no pid to `filter` of the enabled event, and a write of the number 0 (of its low byte)
-- to `enable` at the same time: some order of their statements ends both with success, with the
-- event off and no pid watched, but the probe of `tcp_sendmsg` off and that of `sock_sendmsg` on.
pub both_run-split :
    (K : Kernel) (val : ℕ) (t : Tx)
    → t.tx_enabled ≡ true
    → val % 256 ≡ 0
    → (ss : List Turn) × (u : Tx) × (both_run K val ss
          (both (AtFilter.disarming hooks ([] ∷ [])) AtEnable.setting t)
        ≡ some (both (AtFilter.returned (ok 0)) AtEnable.done u))
      × (u.tx_enabled ≡ false)
      × (u.filter ≡ λ n. false)
      × (u.probes.tcp_sendmsg ≡ false)
      × (u.probes.sock_sendmsg ≡ true)
unfolding both_run filter_next enable_next
both_run-split K val t on off = (
  only Turn.filter 11 ++ only Turn.enable 9 ++ only Turn.filter 4,
  record t {
    tx_enabled = false;
    filter = λ n. false;
    probes = record {
      tcp_sendmsg = false;
      udp_sendmsg = false;
      tcp_sendpage = true;
      udp_sendpage = true;
      sock_sendmsg = true;
    };
  },
  rw (on, off) refl,
  refl,
  refl,
  refl,
  refl,
)
