-- ===== src/Tests/Race.antt =====
-- Two writers to `disk_utils` at the same time.
use w_perf_archived.Base.{◌≡◌, refl, true, false, some, List, [], ◌∷◌, arith}
use w_perf_archived.Tracer.Text.{codes}
use w_perf_archived.Tracer.Kernel.{ok}
use w_perf_archived.Tracer.Disk.{Disk, init}
use w_perf_archived.Tracer.Disk.Race.{PcFilter, PcEnable, Writers, Side, writers_run}
use w_perf_archived.Tracer.Disk.Race.Alone.{writers}
use w_perf_archived.Tracer.Disk.Race.Together.{Room, writers_run-armed, writers_run-Room}

abbrev enabled : Disk
enabled = record init { denabled = true }

writers_run-armed_example :
    (ss : List Side) × (e : Disk) × (writers_run 0 ss
        (writers PcFilter.testing PcEnable.setting enabled)
      ≡ some (writers (PcFilter.returned (ok 0)) PcEnable.done e))
    × (e.armed ≡ true)
    × (e.denabled ≡ false)
    × (e.didx ≡ 0)
writers_run-armed_example = writers_run-armed 0 enabled refl refl

abbrev both : Writers
both = writers (PcFilter.emptying (codes "sda" ∷ [])) PcEnable.setting enabled

abbrev turns : List Side
turns = Side.filter ∷ Side.enable ∷ Side.filter ∷ Side.filter ∷ Side.enable ∷ []

writers_run-Room_example :
    (w : Writers) × (writers_run 0 turns both ≡ some w) × Room w.pc_filter w.disk.didx
writers_run-Room_example = writers_run-Room 0 turns both (omega arith, omega arith)
