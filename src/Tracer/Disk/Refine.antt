-- ===== src/Tracer/Disk/Refine.antt =====
-- What the specification keeps of a state of `disk_utils`, and what a call of its handlers answers.
pub mod Filter
pub mod Output
pub mod Charge
pub mod Runs
use w_perf_archived.Base.{
  ℕ, zero, suc, ◌+◌, ◌-◌, ◌%◌, ◌^◌, ◌<◌, ◌≤◌, ◌≡◌, ◌≢◌, refl, sym, ap, ap₂, ◌∙◌, Bool, true, false,
  not, ◌&&◌, Option, none, some, List, [], ◌∷◌, ◌++◌, All, ltb, leb, ◌==◌, if◌then◌else◌, length,
  length-append, get_or, set, drop, same, same_iff, ltb→le, arith, Bool-cases, Option-cases, inl,
  inr,
}
use w_perf_archived.Tracer.Text.{Bytes, codes, newline, join, cstr, IsText, all_tokens}
use w_perf_archived.Tracer.Text.Tokens.{all_tokens-IsText}
use w_perf_archived.Tracer.Kernel.{Kernel, Seq, Ret, ok, fail, enomem, einval, empty_seq}
use w_perf_archived.Tracer.Disk.{
  Disk, Part, is_empty, max_disk_num, max_dname_size, dname, dutil, clear, dev_idx, credit,
  put_name, store_names, filter_done, usage, on_part_round_stats_ent, dutils_enable_write,
  dutils_filter_write, dutils_output_read,
}
use w_perf_archived.Tracer.Disk.Valid.{Valid, Valid-reset, length_of_filled}
use w_perf_archived.Tracer.Disk.Names.{
  names, names_to, length-names_to, IsName, put_all, put_all-rest, names-put_all, put_name-didx,
}
use w_perf_archived.Tracer.Disk.Print.{rearm, entries, dutils_output_read-usages}
use w_perf_archived.Tracer.Disk.Lookup.{First, dev_idx-First, dev_idx-none}
use w_perf_archived.Tracer.Disk.Calls.{
  Call, enable, filter, output, round_stats, IsCall, call-Valid,
}
use w_perf_archived.Tracer.Disk.Spec.{
  Watch, Reply, returned, printed, nothing, zero_first, usable, has_long, place, next_place, usages,
  text_of, filter_spec, charge_spec, call_spec,
}

-- What is kept of a state: the names of the slots in use, the counters and the flags.
abbrev pub watch_of : Disk → Watch
watch_of d = record {
  listed = names d;
  counts = d.dutils;
  enabled = d.denabled;
  watching = d.armed;
}

abbrev pub reply_of : Option (Ret × Disk) → Option (Reply × Disk)
reply_of none = none
reply_of (some (r, d)) = some (returned r, d)

-- What a call answers and changes; the probe's handler runs only while the probe is on.
unfoldable pub answer : Kernel → Call → Disk → Option (Reply × Disk)
unfolding dutils_enable_write dutils_filter_write dutils_output_read on_part_round_stats_ent
answer K (enable val) d = let r = dutils_enable_write val d in some (returned r.0, r.1)
answer K (filter dup text) d = reply_of (dutils_filter_write K dup text d)
answer K output d = let r = dutils_output_read K d empty_seq in some (printed r.0.text, r.1)
answer K (round_stats now part part0) d =
    some (nothing, if d.armed then on_part_round_stats_ent K now part part0 d else d)

abbrev pub watched : Option (Reply × Disk) → Option (Reply × Watch)
watched none = none
watched (some (r, d)) = some (r, watch_of d)
