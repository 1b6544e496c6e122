-- ===== src/Tracer/Tx.antt =====
-- The event directory `tx_stat` of module/trace_wperf_events.c: the pids that are watched, the bytes
-- that each has sent, and the handlers of its three files and of its five probes.
-- A state is the module's static data, with each probe as it was last switched. A handler that
-- writes outside of the bitmap has the result `none`.
pub mod Count
pub mod Filter
pub mod Pids
pub mod Spec
pub mod Refine
pub mod Order
pub mod Race
pub mod Print
pub mod Valid
pub mod Calls
use w_perf_archived.Base.{
  ℕ, zero, suc, ◌+◌, ◌%◌, ◌^◌, ◌≡◌, Bool, true, false, Option, none, some, List, [], ◌∷◌, ◌++◌, ltb,
  ◌==◌, if◌then◌else◌,
}
use w_perf_archived.Tracer.Text.{Bytes, codes, comma, newline, all_tokens}
use w_perf_archived.Tracer.Kernel.{
  Kernel, Seq, Parsed, value, bad, Ret, ok, fail, enomem, einval, eperm, trace_seq_puts,
  trace_seq_nl,
}
use w_perf_archived.Tracer.Disk.{is_empty}

-- The probes that count, each on or off.
pub record Probes : Type 0 where
  pub tcp_sendmsg : Bool
  pub udp_sendmsg : Bool
  pub tcp_sendpage : Bool
  pub udp_sendpage : Bool
  pub sock_sendmsg : Bool

-- `tx_stats` holds the 64 bits of each long, `filter` the bits of the bitmap.
pub record Tx : Type 0 where
  pub tx_stats : ℕ → ℕ
  pub filter : ℕ → Bool
  pub tx_enabled : Bool
  pub probes : Probes

unfoldable pub disable_tx_stat_probes : Probes → Probes
disable_tx_stat_probes p =
    let p = record p { tcp_sendmsg = false } in
    let p = record p { udp_sendmsg = false } in
    let p = record p { tcp_sendpage = false } in
    let p = record p { udp_sendpage = false } in record p { sock_sendmsg = false }

unfoldable pub enable_tx_stat_probes : Probes → Probes
enable_tx_stat_probes p =
    let p = record p { tcp_sendmsg = true } in
    let p = record p { udp_sendmsg = true } in
    let p = record p { tcp_sendpage = true } in
    let p = record p { udp_sendpage = true } in record p { sock_sendmsg = true }

abbrev pub switch_off : Tx → Tx
switch_off t = record t { probes = disable_tx_stat_probes t.probes }

abbrev pub switch_on : Tx → Tx
switch_on t = record t { probes = enable_tx_stat_probes t.probes }

-- The static data when the module is loaded, after its init function.
abbrev pub init : Tx
init = record {
  tx_stats = λ n. 0;
  filter = λ n. false;
  tx_enabled = false;
  probes = record {
    tcp_sendmsg = false;
    udp_sendmsg = false;
    tcp_sendpage = false;
    udp_sendpage = false;
    sock_sendmsg = false;
  };
}

abbrev pub update {ℓ} : {A : Type ℓ} → (ℕ → A) → ℕ → A → ℕ → A
update f n a m = if n == m then a else f m

-- `if (test_bit(pid, filter)) tx_stats[pid].bytes += size;`, the body of each of the probes below.
unfoldable pub add_bytes : ℕ → ℕ → Tx → Tx
add_bytes pid size t =
    if t.filter pid
    then (record t { tx_stats = update t.tx_stats pid ((t.tx_stats pid + size) % 2 ^ 64) })
    else t

-- `pid` is that of the current task.
unfoldable pub on_tcp_sendmsg_ent : ℕ → ℕ → Tx → Tx
unfolding add_bytes
on_tcp_sendmsg_ent pid size t = add_bytes pid size t

unfoldable pub on_udp_sendmsg_ent : ℕ → ℕ → Tx → Tx
unfolding add_bytes
on_udp_sendmsg_ent pid len t = add_bytes pid len t

unfoldable pub on_tcp_sendpage_ent : ℕ → ℕ → Tx → Tx
unfolding add_bytes
on_tcp_sendpage_ent pid size t = add_bytes pid size t

unfoldable pub on_udp_sendpage_ent : ℕ → ℕ → Tx → Tx
unfolding add_bytes
on_udp_sendpage_ent pid size t = add_bytes pid size t

unfoldable pub on_sock_sendmsg_ent : ℕ → ℕ → Tx → Tx
unfolding add_bytes
on_sock_sendmsg_ent pid size t = add_bytes pid size t

unfoldable pub tx_stats_enable_read : Tx → ℕ
tx_stats_enable_read t = if t.tx_enabled then 1 else 0

-- `val` is the unsigned long whose first byte the handler reads as a bool.
unfoldable pub tx_stats_enable_write : ℕ → Tx → Ret × Tx
tx_stats_enable_write val t =
    if val % 256 == 0
    then (ok 0, record (switch_off t) { tx_enabled = false; filter = λ n. false })
    else (ok 0, record (switch_on t) { tx_enabled = true })

abbrev pub set_bit : ℕ → Tx → Tx
set_bit pid t = record t { filter = update t.filter pid true }

-- The label `err`.
abbrev pub cleared : Tx → Ret × Tx
cleared t = (fail einval, record t { filter = λ n. false })

-- An unsigned long as the 32 bits that `bitmap_set` takes for its start; one that is negative as an
-- int lies outside of the bitmap too.
abbrev pub as_int : ℕ → ℕ
as_int n = n % 2 ^ 32

-- One token of the loop that `kstrtoul` has read.
unfoldable pub add_pid : Kernel → Parsed → Tx → (Tx → Option (Ret × Tx)) → Option (Ret × Tx)
add_pid K (bad e) t next = some (cleared t)
add_pid K (value pid) t next =
    if ltb (as_int pid) K.pid_max then next (set_bit (as_int pid) t) else none

-- The `while` loop of `tx_stats_filter_write` over the tokens of `strsep`.
unfoldable pub add_pids : Kernel → List Bytes → Tx → Option (Ret × Tx)
unfolding add_pid
add_pids K [] t = some (ok 0, t)
add_pids K (s ∷ ss) t =
    if is_empty s then add_pids K ss t else add_pid K (K.kstrtoul s) t (add_pids K ss)

abbrev pub resume : Tx → Tx
resume t = if t.tx_enabled then switch_on t else t

abbrev pub filter_done : Option (Ret × Tx) → Option (Ret × Tx)
filter_done none = none
filter_done (some (fail e, t)) = some (fail e, t)
filter_done (some (ok n, t)) = some (ok 0, resume t)

-- `dup` tells whether `kstrdup` finds memory.
unfoldable pub tx_stats_filter_write : Kernel → Bool → Bytes → Tx → Option (Ret × Tx)
tx_stats_filter_write K dup text t =
    if dup
    then filter_done (add_pids K (all_tokens (K.strstrip text)) (switch_off t))
    else some (fail enomem, t)

-- `for_each_set_bit(n, filter, size) { trace_seq_printf(s, "…,", …); ++m; }`: the buffer, and `m`.
unfoldable pub print_bits : Kernel → (ℕ → Bool) → (ℕ → Bytes) → ℕ → Seq → Seq × ℕ
print_bits K bits show zero s = (s, 0)
print_bits K bits show (suc n) s =
    let (s', m) = print_bits K bits show n s in
    if bits n then (K.printf (show n ++ comma ∷ []) s', m + 1) else (s', m)

-- What follows that loop; `none` where `BUG_ON` stops the kernel.
unfoldable pub end_line : Kernel → Seq × ℕ → Option Seq
end_line K (s, m) =
    if m == 0 then some (trace_seq_puts K (codes "none" ++ newline ∷ []) s).1 else trace_seq_nl s

unfoldable pub tx_stats_filter_read : Kernel → Tx → Seq → Option Seq
unfolding print_bits end_line
tx_stats_filter_read K t s = end_line K (print_bits K t.filter K.dec K.pid_max s)

-- "%d=%ld" of pid `n`.
abbrev pub sent : Kernel → Tx → ℕ → Bytes
sent K t n = K.dec n ++ b'=' ∷ K.ld (t.tx_stats n)

abbrev pub with_state : Tx → Option Seq → Option (Seq × Tx)
with_state t none = none
with_state t (some s) = some (s, t)

unfoldable pub tx_stats_output_read : Kernel → Tx → Seq → Option (Seq × Tx)
unfolding print_bits end_line
tx_stats_output_read K t s =
    let off = switch_off t in
    with_state (resume off) (end_line K (print_bits K off.filter (sent K off) K.pid_max s))

unfoldable pub tx_stats_output_write : Tx → Ret × Tx
tx_stats_output_write t = (fail eperm, t)
