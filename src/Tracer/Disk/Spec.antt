-- ===== src/Tracer/Disk/Spec.antt =====
-- What `disk_utils` promises: a list of names, a list of counters and two flags, without slots, NULs or
-- an index; and what each call answers and changes.
use w_perf_archived.Base.{
  ℕ, zero, suc, ◌+◌, ◌-◌, ◌%◌, ◌^◌, Bool, true, false, not, ◌&&◌, Option, none, some, List, [], ◌∷◌,
  ◌++◌, ltb, leb, ◌==◌, if◌then◌else◌, length, get_or, set, drop, same,
}
use w_perf_archived.Tracer.Text.{Bytes, codes, newline, join, all_tokens}
use w_perf_archived.Tracer.Kernel.{Kernel, Ret, ok, fail, enomem, einval}
use w_perf_archived.Tracer.Disk.{is_empty, max_disk_num, max_dname_size}
use w_perf_archived.Tracer.Disk.Calls.{Call, enable, filter, output, round_stats}

pub record Watch : Type 0 where
  pub listed : List Bytes
  pub counts : List ℕ
  pub enabled : Bool
  pub watching : Bool

-- What a call gives back: a result, a text, or nothing.
pub data Reply : Type 0 where
  returned : Ret → Reply
  printed : Bytes → Reply
  nothing : Reply

-- The first `n` counters are set to zero.
abbrev pub zero_first : ℕ → List ℕ → List ℕ
zero_first zero cs = cs
zero_first (suc n) [] = []
zero_first (suc n) (c ∷ cs) = 0 ∷ zero_first n cs

-- The names before the first token that is too long, and whether there is one.
abbrev pub usable : List Bytes → List Bytes
usable [] = []
usable (t ∷ ts) =
    if leb max_dname_size (length t) then [] else if is_empty t then usable ts else t ∷ usable ts

abbrev pub has_long : List Bytes → Bool
has_long [] = false
has_long (t ∷ ts) = if leb max_dname_size (length t) then true else has_long ts

-- The place of a name in a list.
abbrev pub next_place : Option ℕ → Option ℕ
next_place none = none
next_place (some i) = some (suc i)

abbrev pub place : Bytes → List Bytes → Option ℕ
place name [] = none
place name (n ∷ ns) = if same name n then some 0 else next_place (place name ns)

-- A name with its counter, for each name.
abbrev pub usages : Kernel → List Bytes → List ℕ → List Bytes
usages K [] cs = []
usages K (n ∷ ns) cs = (n ++ b'=' ∷ K.ld (get_or cs 0 0)) ∷ usages K ns (drop 1 cs)

abbrev pub text_of : List Bytes → Bytes
text_of [] = codes "none" ++ newline ∷ []
text_of (t ∷ ts) = join (t ∷ ts) ++ newline ∷ []

abbrev pub filter_spec : List Bytes → Watch → Option (Reply × Watch)
filter_spec fs w =
    if ltb max_disk_num (length (usable fs))
    then none
    else if has_long fs
    then some (returned (fail einval), record w { listed = usable fs; watching = false })
    else some (returned (ok 0), record w { listed = usable fs; watching = w.enabled })

abbrev pub charge_spec : ℕ → Option ℕ → Watch → Watch
charge_spec n none w = w
charge_spec n (some i) w = record w { counts = set w.counts i ((get_or w.counts i 0 + n) % 2 ^ 64) }

-- What a call comes to; `none` is a write outside of the array.
abbrev pub call_spec : Kernel → Call → Watch → Option (Reply × Watch)
call_spec K (enable val) w =
    if val % 256 == 0
    then some (
      returned (ok 0),
      record {
        listed = [];
        counts = zero_first (length w.listed) w.counts;
        enabled = false;
        watching = false;
      },
    )
    else some (returned (ok 0), record w { enabled = true; watching = true })
call_spec K (filter false text) w = some (returned (fail enomem), w)
call_spec K (filter true text) w = filter_spec (all_tokens (K.strstrip text)) w
call_spec K output w =
    some (printed (text_of (usages K w.listed w.counts)), record w { watching = w.enabled })
call_spec K (round_stats now part part0) w =
    let p = if part.partno == 0 then part else part0 in
    if w.watching && (K.time_after now p.stamp && not (p.in_flight == 0))
    then some
        (nothing, charge_spec ((now + 2 ^ 64 - p.stamp) % 2 ^ 64) (place p.dev_name w.listed) w)
    else some (nothing, w)
