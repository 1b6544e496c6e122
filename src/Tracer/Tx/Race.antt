-- ===== src/Tracer/Tx/Race.antt =====
-- A write to `enable` and one to `filter` of `tx_stat` at the same time, of
-- module/trace_wperf_events.c: `filter_write_generic` holds `event_mutex` around its handler, and
-- `enable_write_generic` does not, so the statements of the two handlers can come in any order. Each
-- probe is switched by a statement of its own; clearing the bitmap is one.
pub mod Alone
pub mod Split
pub mod Inside
pub mod Covers
pub mod Enabled
use w_perf_archived.Base.{
  ℕ, ◌%◌, Bool, true, false, not, Option, none, some, List, [], ◌∷◌, ltb, ◌==◌, if◌then◌else◌,
}
use w_perf_archived.Tracer.Text.{Bytes}
use w_perf_archived.Tracer.Kernel.{Kernel, Parsed, value, bad, Ret, ok, fail, einval}
use w_perf_archived.Tracer.Disk.{is_empty}
use w_perf_archived.Tracer.Tx.{Tx, Probes, set_bit, as_int}
use w_perf_archived.Tracer.Tx.Count.{Hook}

-- `enable_jprobe` and `disable_jprobe` of one probe.
abbrev pub switch_probe : Hook → Bool → Probes → Probes
switch_probe Hook.tcp_sendmsg b p = record p { tcp_sendmsg = b }
switch_probe Hook.udp_sendmsg b p = record p { udp_sendmsg = b }
switch_probe Hook.tcp_sendpage b p = record p { tcp_sendpage = b }
switch_probe Hook.udp_sendpage b p = record p { udp_sendpage = b }
switch_probe Hook.sock_sendmsg b p = record p { sock_sendmsg = b }

unfoldable pub switch_hook : Hook → Bool → Tx → Tx
switch_hook h b t = record t { probes = switch_probe h b t.probes }

-- The statements of `enable_tx_stat_probes` and of `disable_tx_stat_probes`.
abbrev pub hooks : List Hook
hooks =
    Hook.tcp_sendmsg ∷ Hook.udp_sendmsg ∷ Hook.tcp_sendpage ∷ Hook.udp_sendpage ∷ Hook.sock_sendmsg
    ∷ []

-- Where `tx_stats_filter_write` stands, behind its copy of the text, with the probes and the tokens
-- that are left.
pub data AtFilter : Type 0 where
  disarming : List Hook → List Bytes → AtFilter
  reading : List Bytes → AtFilter
  testing : AtFilter
  arming : List Hook → AtFilter
  erasing : AtFilter
  returned : Ret → AtFilter

abbrev pub take_pid : Kernel → Parsed → List Bytes → Tx → Option (AtFilter × Tx)
take_pid K (bad e) ts t = some (AtFilter.erasing, t)
take_pid K (value pid) ts t =
    if ltb (as_int pid) K.pid_max then some (AtFilter.reading ts, set_bit (as_int pid) t) else none

-- Its next statement; `none` is a write outside of the bitmap.
unfoldable pub filter_next : Kernel → AtFilter → Tx → Option (AtFilter × Tx)
unfolding switch_hook
filter_next K (AtFilter.disarming (h ∷ hs) ts) t =
    some (AtFilter.disarming hs ts, switch_hook h false t)
filter_next K (AtFilter.disarming [] ts) t = some (AtFilter.reading ts, t)
filter_next K (AtFilter.reading []) t = some (AtFilter.testing, t)
filter_next K (AtFilter.reading (s ∷ ss)) t =
    if is_empty s then some (AtFilter.reading ss, t) else take_pid K (K.kstrtoul s) ss t
filter_next K AtFilter.testing t =
    some (if t.tx_enabled then AtFilter.arming hooks else AtFilter.returned (ok 0), t)
filter_next K (AtFilter.arming (h ∷ hs)) t = some (AtFilter.arming hs, switch_hook h true t)
filter_next K (AtFilter.arming []) t = some (AtFilter.returned (ok 0), t)
filter_next K AtFilter.erasing t =
    some (AtFilter.returned (fail einval), record t { filter = λ n. false })
filter_next K (AtFilter.returned r) t = some (AtFilter.returned r, t)

-- Where `tx_stats_enable_write` stands, with the probes that are left.
pub data AtEnable : Type 0 where
  setting switching zeroing done : AtEnable
  disarming arming : List Hook → AtEnable

-- Its next statement, where `val` is the number that it was called with.
unfoldable pub enable_next : ℕ → AtEnable → Tx → AtEnable × Tx
unfolding switch_hook
enable_next val AtEnable.setting t =
    (AtEnable.switching, record t { tx_enabled = not (val % 256 == 0) })
enable_next val AtEnable.switching t =
    (if t.tx_enabled then AtEnable.arming hooks else AtEnable.disarming hooks, t)
enable_next val (AtEnable.disarming (h ∷ hs)) t = (AtEnable.disarming hs, switch_hook h false t)
enable_next val (AtEnable.disarming []) t = (AtEnable.zeroing, t)
enable_next val AtEnable.zeroing t = (AtEnable.done, record t { filter = λ n. false })
enable_next val (AtEnable.arming (h ∷ hs)) t = (AtEnable.arming hs, switch_hook h true t)
enable_next val (AtEnable.arming []) t = (AtEnable.done, t)
enable_next val AtEnable.done t = (AtEnable.done, t)

-- The two writers over one state.
pub record Both : Type 0 where
  pub at_filter : AtFilter
  pub at_enable : AtEnable
  pub tx : Tx

pub data Turn : Type 0 where
  filter enable : Turn

abbrev pub both : AtFilter → AtEnable → Tx → Both
both f e t = record { at_filter = f; at_enable = e; tx = t }

abbrev pub with_filter : AtEnable → Option (AtFilter × Tx) → Option Both
with_filter e none = none
with_filter e (some (f, t)) = some (both f e t)

abbrev pub with_enable : AtFilter → AtEnable × Tx → Both
with_enable f (e, t) = both f e t

unfoldable pub both_step : Kernel → ℕ → Turn → Both → Option Both
unfolding filter_next enable_next
both_step K val Turn.filter w = with_filter w.at_enable (filter_next K w.at_filter w.tx)
both_step K val Turn.enable w = some (with_enable w.at_filter (enable_next val w.at_enable w.tx))

abbrev pub then_turn : (Both → Option Both) → Option Both → Option Both
then_turn f none = none
then_turn f (some w) = f w

-- The statements in the order of a schedule.
unfoldable pub both_run : Kernel → ℕ → List Turn → Both → Option Both
unfolding both_step
both_run K val [] w = some w
both_run K val (s ∷ ss) w = then_turn (both_run K val ss) (both_step K val s w)
