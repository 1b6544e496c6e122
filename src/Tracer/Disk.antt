-- ===== src/Tracer/Disk.antt =====
-- The event directory `disk_utils` of module/trace_wperf_events.c: the names of the disks that are
-- watched, the time that each was busy, and the handlers of its three files and of its probe.
-- A state is the module's static data, with the probe `part_round_stats` as it was last switched.
-- A handler that writes outside of an array has the result `none`.
pub mod Valid
pub mod Names
pub mod Filter
pub mod Calls
pub mod Enable
pub mod Print
pub mod Lookup
pub mod Spec
pub mod Refine
pub mod Race
use w_perf_archived.Base.{
  ℕ, zero, suc, ◌+◌, ◌-◌, ◌%◌, ◌^◌, ◌≡◌, Bool, true, false, not, ◌&&◌, Option, none, some, List, [],
  ◌∷◌, ◌++◌, ltb, ◌==◌, if◌then◌else◌, length, get_or, set, replicate,
}
use w_perf_archived.Tracer.Text.{
  Bytes, codes, comma, newline, cstr, strncpy, strncmp_eq, all_tokens,
}
use w_perf_archived.Tracer.Kernel.{
  Kernel, Seq, Ret, ok, fail, enomem, einval, eperm, trace_seq_puts,
}

abbrev pub max_disk_num : ℕ
max_disk_num = 20

abbrev pub max_dname_size : ℕ
max_dname_size = 20

-- `dutils` holds the 64 bits of each long.
pub record Disk : Type 0 where
  pub dnames : List Bytes
  pub dutils : List ℕ
  pub didx : ℕ
  pub denabled : Bool
  pub armed : Bool

-- The static data when the module is loaded, after `disable_jprobe` in its init function.
abbrev pub init : Disk
init = record {
  dnames = replicate max_disk_num (replicate max_dname_size 0);
  dutils = replicate max_disk_num 0;
  didx = 0;
  denabled = false;
  armed = false;
}

abbrev pub dname : Disk → ℕ → Bytes
dname d i = get_or d.dnames i []

abbrev pub dutil : Disk → ℕ → ℕ
dutil d i = get_or d.dutils i 0

-- The loop of `dev_idx` from `i`, with `n` rounds left.
unfoldable pub dev_idx_from : List Bytes → Bytes → ℕ → ℕ → Option ℕ
dev_idx_from names name i zero = none
dev_idx_from names name i (suc n) =
    let later = dev_idx_from names name (i + 1) n in
    if strncmp_eq max_dname_size name (get_or names i []) then some i else later

-- `none` is -1.
unfoldable pub dev_idx : Bytes → Disk → Option ℕ
unfolding dev_idx_from
dev_idx name d = dev_idx_from d.dnames name 0 d.didx

-- `struct hd_struct`, with the name of its device.
pub record Part : Type 0 where
  pub partno : ℕ
  pub stamp : ℕ
  pub in_flight : ℕ
  pub dev_name : Bytes

-- `dutils[idx] += now - part->stamp`, behind the two tests of the handler.
unfoldable pub credit : Kernel → ℕ → Part → Disk → Option ℕ → Disk
credit K now part d none = d
credit K now part d (some idx) =
    if K.time_after now part.stamp && not (part.in_flight == 0)
    then (record d {
      dutils = set d.dutils idx ((dutil d idx + (now + 2 ^ 64 - part.stamp) % 2 ^ 64) % 2 ^ 64);
    })
    else d

-- `part_to_disk(part)->part0` comes as `part0`; `now` is `jiffies`.
unfoldable pub on_part_round_stats_ent : Kernel → ℕ → Part → Part → Disk → Disk
unfolding credit
on_part_round_stats_ent K now part part0 d =
    let p = if part.partno == 0 then part else part0 in credit K now p d (dev_idx p.dev_name d)

unfoldable pub dutils_enable_read : Disk → ℕ
dutils_enable_read d = if d.denabled then 1 else 0

-- `for (i = 0; i < n; i++) dutils[i] = 0;`
unfoldable pub clear : ℕ → List ℕ → List ℕ
clear zero counts = counts
clear (suc n) counts = set (clear n counts) n 0

-- `val` is the unsigned long whose first byte the handler reads as a bool.
unfoldable pub dutils_enable_write : ℕ → Disk → Ret × Disk
unfolding clear
dutils_enable_write val d =
    if val % 256 == 0
    then (
      ok 0,
      record d { denabled = false; armed = false; dutils = clear d.didx d.dutils; didx = 0 },
    )
    else (ok 0, record d { denabled = true; armed = true })

abbrev pub is_empty : Bytes → Bool
is_empty [] = true
is_empty (c ∷ t) = false

-- `strncpy(dnames[didx++], token, len)`, where `didx` is in range.
unfoldable pub put_name : Bytes → Disk → Disk
put_name t d = record d {
  dnames = set d.dnames d.didx (strncpy (dname d d.didx) t (length t + 1));
  didx = d.didx + 1;
}

-- The `while` loop of `dutils_filter_write` over the tokens of `strsep`.
unfoldable pub store_names : List Bytes → Disk → Option (Ret × Disk)
unfolding put_name
store_names [] d = some (ok 0, d)
store_names (t ∷ ts) d =
    let skip = store_names ts d in
    let next = store_names ts (put_name t d) in
    if is_empty t
    then skip
    else if ltb max_dname_size (length t + 1)
    then some (fail einval, d)
    else if ltb d.didx max_disk_num
    then next
    else none

-- What follows the loop; an early return keeps the state that it leaves.
abbrev pub filter_done : Option (Ret × Disk) → Option (Ret × Disk)
filter_done none = none
filter_done (some (fail e, d)) = some (fail e, d)
filter_done (some (ok n, d)) = some (ok 0, if d.denabled then (record d { armed = true }) else d)

-- `dup` tells whether `kstrdup` finds memory.
unfoldable pub dutils_filter_write : Kernel → Bool → Bytes → Disk → Option (Ret × Disk)
dutils_filter_write K dup text d =
    if dup
    then filter_done
        (store_names (all_tokens (K.strstrip text)) (record d { didx = 0; armed = false }))
    else some (fail enomem, d)

-- `for (i = 0; i < n; i++) trace_seq_printf(s, "…,", …);` where entry `i` is the text `f i`.
unfoldable pub print_loop : Kernel → (ℕ → Bytes) → ℕ → Seq → Seq
print_loop K f zero s = s
print_loop K f (suc n) s = K.printf (f n ++ comma ∷ []) (print_loop K f n s)

-- The entries up to the last one, which ends the line.
abbrev pub print_list : Kernel → (ℕ → Bytes) → ℕ → Seq → Seq
print_list K f n s =
    if n == 0
    then (trace_seq_puts K (codes "none" ++ newline ∷ []) s).1
    else K.printf (f (n - 1) ++ newline ∷ []) (print_loop K f (n - 1) s)

-- "%s" of entry `i`.
abbrev pub entry : Disk → ℕ → Bytes
entry d i = cstr (dname d i)

unfoldable pub dutils_filter_read : Kernel → Disk → Seq → Seq
unfolding print_loop
dutils_filter_read K d s = print_list K (entry d) d.didx s

-- "%s=%ld" of entry `i`.
abbrev pub usage : Kernel → Disk → ℕ → Bytes
usage K d i = cstr (dname d i) ++ b'=' ∷ K.ld (dutil d i)

unfoldable pub dutils_output_read : Kernel → Disk → Seq → Seq × Disk
unfolding print_loop
dutils_output_read K d s =
    let off = record d { armed = false } in
    let out = print_list K (usage K off) d.didx s in
    (out, if d.denabled then (record off { armed = true }) else off)

-- Both write handlers of `output` refuse.
unfoldable pub dutils_output_write : Disk → Ret × Disk
dutils_output_write d = (fail eperm, d)
