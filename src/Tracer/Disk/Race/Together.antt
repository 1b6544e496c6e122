-- ===== src/Tracer/Disk/Race/Together.antt =====
-- What the two writers can do to each other.
use w_perf_archived.Base.{
  ℕ, suc, ◌+◌, ◌%◌, ◌≤◌, ◌≡◌, refl, ap, ◌∙◌, Bool, true, false, Option, none, some, List, [], ◌∷◌,
  ◌++◌, ltb, if◌then◌else◌, length, arith, Bool-cases, inl, inr, lt→ltb,
}
use w_perf_archived.Tracer.Kernel.{ok}
use w_perf_archived.Tracer.Disk.{Disk, max_disk_num, max_dname_size, is_empty, dutils_enable_write}
use w_perf_archived.Tracer.Disk.Names.{put_name-didx}
use w_perf_archived.Tracer.Disk.Race.{
  PcFilter, filter_step, PcEnable, enable_step, Writers, Side, with_filter, then_go, writers_step,
  writers_run,
}
use w_perf_archived.Tracer.Disk.Race.Alone.{writers, only, writers_run-enable}

then_go-both :
    (f g h : Writers → Option Writers) (o : Option Writers)
    → ((v : Writers) → f v ≡ then_go g (h v))
    → then_go f o ≡ then_go g (then_go h o)
then_go-both f g h none e = refl
then_go-both f g h (some v) e = e v

writers_run-append :
    (val : ℕ) (ss ts : List Side) (w : Writers)
    → writers_run val (ss ++ ts) w ≡ then_go (writers_run val ts) (writers_run val ss w)
unfolding writers_run
writers_run-append val [] ts w = refl
writers_run-append val (s ∷ ss) ts w =
    then_go-both (writers_run val (ss ++ ts)) (writers_run val ts) (writers_run val ss)
      (writers_step val s w) (writers_run-append val ss ts)

turned_off :
    (val : ℕ) (d : Disk)
    → val % 256 ≡ 0
    → ((dutils_enable_write val d).1.denabled ≡ false) × ((dutils_enable_write val d).1.didx ≡ 0)
unfolding dutils_enable_write
turned_off val d off = rw off (refl, refl)

-- A write to `filter` that is about to test the flag of the enabled event, and a write of the
-- number 0 (of its low byte) to `enable` that begins then: some order of their statements ends both
-- with success, with nothing watched, the event off, and its probe on.
pub writers_run-armed :
    (val : ℕ) (d : Disk)
    → d.denabled ≡ true
    → val % 256 ≡ 0
    → let w = writers PcFilter.testing PcEnable.setting d in
      (ss : List Side) × (e : Disk) × (writers_run val ss w
        ≡ some (writers (PcFilter.returned (ok 0)) PcEnable.done e))
      × (e.armed ≡ true)
      × (e.denabled ≡ false)
      × (e.didx ≡ 0)
unfolding writers_run filter_step
writers_run-armed val d on off =
    let e = (dutils_enable_write val d).1 in
    let whole = only Side.enable (suc (suc (suc (suc (suc d.didx))))) in
    (
      Side.filter ∷ whole ++ Side.filter ∷ [],
      record e { armed = true },
      ap
            (λ b. writers_run val (whole ++ Side.filter ∷ []) (
              writers (if b then PcFilter.arming else PcFilter.returned (ok 0)) PcEnable.setting d))
            on
          ∙ writers_run-append val whole (Side.filter ∷ [])
              (writers PcFilter.arming PcEnable.setting d)
          ∙ ap (then_go (writers_run val (Side.filter ∷ [])))
              (writers_run-enable val PcFilter.arming d),
      refl,
      (turned_off val d off).0,
      (turned_off val d off).1,
    )

-- There is room in the array for the tokens that are left.
abbrev pub Room : PcFilter → ℕ → Type 0
Room (PcFilter.emptying ts) n = (length ts ≤ max_disk_num) × (n ≤ max_disk_num)
Room (PcFilter.disarming ts) n = n + length ts ≤ max_disk_num
Room (PcFilter.storing ts) n = n + length ts ≤ max_disk_num
Room _ n = n ≤ max_disk_num

Room-le : (f : PcFilter) (m n : ℕ) → m ≤ n → Room f n → Room f m
Room-le (PcFilter.emptying ts) m n h (p, q) = (p, omega arith)
Room-le (PcFilter.disarming ts) m n h p = omega arith
Room-le (PcFilter.storing ts) m n h p = omega arith
Room-le PcFilter.testing m n h p = omega arith
Room-le PcFilter.arming m n h p = omega arith
Room-le (PcFilter.returned r) m n h p = omega arith

abbrev HasRoom : Option (PcFilter × Disk) → Type 0
HasRoom none = ⊥
HasRoom (some (f, d)) = Room f d.didx

if-Room :
    (b : Bool) (d : Disk)
    → d.didx ≤ max_disk_num
    → Room (if b then PcFilter.arming else PcFilter.returned (ok 0)) d.didx
if-Room true d p = p
if-Room false d p = p

filter_step-HasRoom : (f : PcFilter) (d : Disk) → Room f d.didx → HasRoom (filter_step f d)
unfolding filter_step
filter_step-HasRoom (PcFilter.emptying ts) d (p, q) = omega arith
filter_step-HasRoom (PcFilter.disarming ts) d p = p
filter_step-HasRoom (PcFilter.storing []) d p = omega arith
filter_step-HasRoom (PcFilter.storing (t ∷ ts)) d p = elim (Bool-cases (is_empty t)) [
  | inl z ↦ rw z (omega arith)
  | inr z ↦ elim (Bool-cases (ltb max_dname_size (length t + 1))) [
    | inl long ↦ rw (z, long) (omega arith)
    | inr short ↦
        rw (z, short, lt→ltb d.didx max_disk_num (omega arith)) (omega (arith, put_name-didx t d))
  ]
]
filter_step-HasRoom PcFilter.testing d p = if-Room d.denabled d p
filter_step-HasRoom PcFilter.arming d p = p
filter_step-HasRoom (PcFilter.returned r) d p = p

enable_step-didx : (val : ℕ) (e : PcEnable) (d : Disk) → (enable_step val e d).1.didx ≤ d.didx
unfolding enable_step
enable_step-didx val PcEnable.setting d = omega arith
enable_step-didx val PcEnable.switching d = omega arith
enable_step-didx val PcEnable.disarming d = omega arith
enable_step-didx val (PcEnable.clearing i) d = ground arith
enable_step-didx val PcEnable.resetting d = omega arith
enable_step-didx val PcEnable.arming d = omega arith
enable_step-didx val PcEnable.done d = omega arith

abbrev AllRoom : Option Writers → Type 0
AllRoom none = ⊥
AllRoom (some w) = Room w.pc_filter w.disk.didx

with_filter-AllRoom :
    (e : PcEnable) (o : Option (PcFilter × Disk)) → HasRoom o → AllRoom (with_filter e o)
with_filter-AllRoom e none h = h
with_filter-AllRoom e (some (f, d)) h = h

writers_step-AllRoom :
    (val : ℕ) (s : Side) (w : Writers)
    → Room w.pc_filter w.disk.didx
    → AllRoom (writers_step val s w)
unfolding writers_step
writers_step-AllRoom val Side.filter w h =
    with_filter-AllRoom w.pc_enable _ (filter_step-HasRoom w.pc_filter w.disk h)
writers_step-AllRoom val Side.enable w h =
    Room-le w.pc_filter _ w.disk.didx (enable_step-didx val w.pc_enable w.disk) h

then_go-AllRoom :
    (f : Writers → Option Writers) (o : Option Writers)
    → ((w : Writers) → Room w.pc_filter w.disk.didx → AllRoom (f w))
    → AllRoom o
    → AllRoom (then_go f o)
then_go-AllRoom f none g h = h
then_go-AllRoom f (some w) g h = g w h

writers_run-AllRoom :
    (val : ℕ) (ss : List Side) (w : Writers)
    → Room w.pc_filter w.disk.didx
    → AllRoom (writers_run val ss w)
unfolding writers_run
writers_run-AllRoom val [] w h = h
writers_run-AllRoom val (s ∷ ss) w h =
    then_go-AllRoom (writers_run val ss) (writers_step val s w) (writers_run-AllRoom val ss)
      (writers_step-AllRoom val s w h)

found :
    (o : Option Writers) → AllRoom o → (w : Writers) × (o ≡ some w) × Room w.pc_filter w.disk.didx
found none h = absurd h
found (some w) h = (w, refl, h)

-- A write to `filter` and one to `enable` at the same time, from a place and a state where the
-- index and the tokens that are left fit the array: no order of their statements writes outside of
-- the array of names, and the index and the tokens that are left still fit.
pub writers_run-Room :
    (val : ℕ) (ss : List Side) (w : Writers)
    → Room w.pc_filter w.disk.didx
    → (w' : Writers) × (writers_run val ss w ≡ some w') × Room w'.pc_filter w'.disk.didx
writers_run-Room val ss w h = found (writers_run val ss w) (writers_run-AllRoom val ss w h)
