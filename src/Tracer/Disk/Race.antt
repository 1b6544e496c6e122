-- ===== src/Tracer/Disk/Race.antt =====
-- A write to `enable` and one to `filter` of `disk_utils` at the same time, of
-- module/trace_wperf_events.c: `filter_write_generic` holds `event_mutex` around its handler, and
-- `enable_write_generic` does not, so the statements of the two handlers can come in any order.
pub mod Alone
pub mod Together
use w_perf_archived.Base.{
  ℕ, zero, suc, ◌+◌, ◌%◌, Bool, true, false, not, Option, none, some, List, [], ◌∷◌, ltb, ◌==◌,
  if◌then◌else◌, length, set,
}
use w_perf_archived.Tracer.Text.{Bytes}
use w_perf_archived.Tracer.Kernel.{Ret, ok, fail, einval}
use w_perf_archived.Tracer.Disk.{Disk, max_disk_num, max_dname_size, is_empty, put_name}

-- Where `dutils_filter_write` stands, behind its copy of the text, with the tokens that are left.
pub data PcFilter : Type 0 where
  emptying : List Bytes → PcFilter
  disarming : List Bytes → PcFilter
  storing : List Bytes → PcFilter
  testing : PcFilter
  arming : PcFilter
  returned : Ret → PcFilter

-- Its next statement; `none` is a write outside of the array.
unfoldable pub filter_step : PcFilter → Disk → Option (PcFilter × Disk)
filter_step (PcFilter.emptying ts) d = some (PcFilter.disarming ts, record d { didx = 0 })
filter_step (PcFilter.disarming ts) d = some (PcFilter.storing ts, record d { armed = false })
filter_step (PcFilter.storing []) d = some (PcFilter.testing, d)
filter_step (PcFilter.storing (t ∷ ts)) d =
    if is_empty t
    then some (PcFilter.storing ts, d)
    else if ltb max_dname_size (length t + 1)
    then some (PcFilter.returned (fail einval), d)
    else if ltb d.didx max_disk_num
    then some (PcFilter.storing ts, put_name t d)
    else none
filter_step PcFilter.testing d =
    some (if d.denabled then PcFilter.arming else PcFilter.returned (ok 0), d)
filter_step PcFilter.arming d = some (PcFilter.returned (ok 0), record d { armed = true })
filter_step (PcFilter.returned r) d = some (PcFilter.returned r, d)

-- Where `dutils_enable_write` stands.
pub data PcEnable : Type 0 where
  setting switching disarming resetting arming done : PcEnable
  clearing : ℕ → PcEnable

-- Its next statement, where `val` is the number that it was called with.
unfoldable pub enable_step : ℕ → PcEnable → Disk → PcEnable × Disk
enable_step val PcEnable.setting d =
    (PcEnable.switching, record d { denabled = not (val % 256 == 0) })
enable_step val PcEnable.switching d =
    (if d.denabled then PcEnable.arming else PcEnable.disarming, d)
enable_step val PcEnable.disarming d = (PcEnable.clearing 0, record d { armed = false })
enable_step val (PcEnable.clearing i) d =
    if ltb i d.didx
    then (PcEnable.clearing (i + 1), record d { dutils = set d.dutils i 0 })
    else (PcEnable.resetting, d)
enable_step val PcEnable.resetting d = (PcEnable.done, record d { didx = 0 })
enable_step val PcEnable.arming d = (PcEnable.done, record d { armed = true })
enable_step val PcEnable.done d = (PcEnable.done, d)

-- The two writers over one state.
pub record Writers : Type 0 where
  pub pc_filter : PcFilter
  pub pc_enable : PcEnable
  pub disk : Disk

pub data Side : Type 0 where
  filter enable : Side

abbrev pub with_filter : PcEnable → Option (PcFilter × Disk) → Option Writers
with_filter e none = none
with_filter e (some (f, d)) = some (record { pc_filter = f; pc_enable = e; disk = d })

abbrev pub with_enable : PcFilter → PcEnable × Disk → Writers
with_enable f (e, d) = record { pc_filter = f; pc_enable = e; disk = d }

unfoldable pub writers_step : ℕ → Side → Writers → Option Writers
unfolding filter_step enable_step
writers_step val Side.filter w = with_filter w.pc_enable (filter_step w.pc_filter w.disk)
writers_step val Side.enable w = some (with_enable w.pc_filter (enable_step val w.pc_enable w.disk))

abbrev pub then_go : (Writers → Option Writers) → Option Writers → Option Writers
then_go f none = none
then_go f (some w) = f w

-- The statements in the order of a schedule.
unfoldable pub writers_run : ℕ → List Side → Writers → Option Writers
unfolding writers_step
writers_run val [] w = some w
writers_run val (s ∷ ss) w = then_go (writers_run val ss) (writers_step val s w)
