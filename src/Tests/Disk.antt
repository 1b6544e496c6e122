-- ===== src/Tests/Disk.antt =====
-- The `disk_utils` handlers at concrete inputs.
use w_perf_archived.Base.{
  ℕ, zero, suc, ◌<◌, ◌≡◌, ◌≢◌, refl, ap, true, none, some, List, [], ◌∷◌, ◌++◌, arith, length,
  replicate,
}
use w_perf_archived.Tracer.Text.{Bytes, codes, newline, cstr, all_tokens}
use w_perf_archived.Tracer.Text.Tokens.{IsToken}
use w_perf_archived.Tracer.Kernel.{ok, empty_seq}
use w_perf_archived.Tracer.Disk.{
  Disk, Part, init, max_disk_num, max_dname_size, dname, dutil, store_names, dutils_filter_write,
  dutils_output_read, on_part_round_stats_ent, dutils_enable_write,
}
use w_perf_archived.Tracer.Disk.Valid.{Valid, init-Valid}
use w_perf_archived.Tracer.Disk.Names.{kept}
use w_perf_archived.Tracer.Disk.Filter.{
  Written, fields, dutils_filter_write-ok, dutils_filter_write-overflow,
}
use w_perf_archived.Tracer.Text.{strncpy}
use w_perf_archived.Tracer.Disk.Valid.{Holds}
use w_perf_archived.Tracer.Disk.Lookup.{First, on_part_round_stats_ent-charge}
use w_perf_archived.Tracer.Disk.Refine.{watch_of}
use w_perf_archived.Tracer.Disk.Refine.Runs.{answers, calls_spec, all_watched, answers-watched}
use w_perf_archived.Tracer.Disk.Calls.{
  Call, enable, filter, output, round_stats, calls, ValidState, calls-Valid,
}
use w_perf_archived.Base.{get_or-replicate}
use w_perf_archived.Tests.Kernel.{sample}

abbrev sda : Bytes
sda = codes "sda"

abbrev sdb : Bytes
sdb = codes "sdb"

sda-IsToken : IsToken sda
sda-IsToken = omega arith

sdb-IsToken : IsToken sdb
sdb-IsToken = omega arith

abbrev listing : Bytes
listing = codes "sda,,sdb"

dutils_filter_write-ok_example :
    (d' : Disk) × (dutils_filter_write sample true listing init ≡ some (ok 0, d'))
    × Written init d' (kept (fields sample listing))
unfolding all_tokens sample kept
dutils_filter_write-ok_example =
    dutils_filter_write-ok sample listing init (omega arith) init-Valid (omega arith) (omega arith)

-- 21 names of one letter.
abbrev crowd : Bytes
crowd = codes "a,b,c,d,e,f,g,h,i,j,k,l,m,n,o,p,q,r,s,t,u"

dutils_filter_write-overflow_example : dutils_filter_write sample true crowd init ≡ none
unfolding all_tokens sample kept
dutils_filter_write-overflow_example =
    dutils_filter_write-overflow sample crowd init (omega arith) init-Valid (omega arith)
      (omega arith)

-- One disk watched, which was busy for 7 ticks.
abbrev watching : Disk
watching = record init {
  dnames = (sda ++ replicate 17 0) ∷ replicate 19 (replicate max_dname_size 0);
  dutils = 7 ∷ replicate 19 0;
  didx = 1;
  denabled = true;
  armed = true;
}

watching_is_reached :
    (dutils_filter_write sample true sda (dutils_enable_write 1 init).1)
    ≡ some (ok 0, record watching { dutils = replicate max_disk_num 0 })
unfolding store_names dutils_filter_write dutils_enable_write all_tokens sample cstr strncpy
watching_is_reached = refl

watching-sizes : (i : ℕ) → i < max_disk_num → length (dname watching i) ≡ max_dname_size
watching-sizes zero h = refl
watching-sizes (suc i) h =
    ap length (get_or-replicate 19 i (replicate max_dname_size 0) [] (omega arith))

watching-named : (i : ℕ) → i < 1 → Holds (dname watching i)
unfolding cstr
watching-named zero h = omega arith
watching-named (suc i) h = absurd (omega arith)

watching-Valid : Valid watching
watching-Valid = record {
  slots = refl;
  sizes = watching-sizes;
  counters = refl;
  few = omega arith;
  named = watching-named;
  gated = λ e. refl;
}

abbrev sda_part : Part
sda_part = record { partno = 0; stamp = 100; in_flight = 2; dev_name = sda }

abbrev sda1_part : Part
sda1_part = record { partno = 1; stamp = 90; in_flight = 1; dev_name = codes "sda1" }

watching-First : First watching sda 0
unfolding cstr
watching-First = record { used = omega arith; same = refl; before = λ j h. absurd (omega arith) }

on_part_round_stats_ent-charge_example :
    let d' = on_part_round_stats_ent sample 105 sda1_part sda_part watching in
    (dutil d' 0 ≡ 12)
    × ((j : ℕ) → j ≢ 0 → dutil d' j ≡ dutil watching j)
    × (d' ≡ record watching { dutils = d'.dutils })
unfolding sample
on_part_round_stats_ent-charge_example =
    on_part_round_stats_ent-charge sample 105 sda1_part sda_part watching 0 watching-Valid
      (omega arith) watching-First refl (cc)

usages_line : (dutils_output_read sample watching empty_seq).0.text ≡ codes "sda=7" ++ newline ∷ []
unfolding dutils_output_read sample cstr
usages_line = refl

abbrev history : List Call
history = enable 1 ∷ filter true sda ∷ round_stats 105 sda1_part sda_part ∷ output ∷ []

calls-Valid_example : ValidState (calls sample history init)
calls-Valid_example = calls-Valid sample history init (omega arith) init-Valid

answers-watched_example :
    all_watched (answers sample history init) ≡ calls_spec sample history (watch_of init)
answers-watched_example = answers-watched sample history init (omega arith) init-Valid
