-- ===== src/Tracer/Tx/Refine/Each.antt =====
-- Each call of `tx_stat` does only what the specification allows.
use mathlib.Core.Path.{subst}
use mathlib.Core.List.{map}
use w_perf_archived.Base.{
  ℕ, ◌+◌, ◌%◌, ◌^◌, ◌≡◌, refl, sym, ap, ◌∙◌, Bool, true, false, ◌&&◌, ◌||◌, Option, none, some,
  List, ◌∷◌, ◌++◌, ◌==◌, if◌then◌else◌, Bool-cases, inl, inr, arith,
}
use w_perf_archived.Tracer.Text.{Bytes, all_tokens}
use w_perf_archived.Tracer.Kernel.{Kernel, Parsed, Seq, value, bad}
use w_perf_archived.Tracer.Tx.{
  Tx, update, add_bytes, with_state, tx_stats_enable_write, tx_stats_filter_write,
  enable_tx_stat_probes, disable_tx_stat_probes, sent,
}
use w_perf_archived.Tracer.Tx.Pids.{member, member-add_list, among}
use w_perf_archived.Tracer.Tx.Count.{Send, Hook, send, is_on, handler-add_bytes}
use w_perf_archived.Tracer.Tx.Filter.{
  Reads-total, all_probes, PidsOf, tx_stats_filter_write-ok, tx_stats_filter_write-wrong,
  tx_stats_filter_write-beyond,
}
use w_perf_archived.Tracer.Tx.Print.{
  Listed, set_bits, tx_stats_output_read-Listed, nothing, all, some_first,
}
use w_perf_archived.Tracer.Tx.Calls.{Call, enable, filter, output}
use w_perf_archived.Tracer.Tx.Calls
use w_perf_archived.Tracer.Tx.Spec.{
  Watch, counts, counted, disabling, enabling, no_memory, adding, refusing, overrunning, printing,
  sending,
}
use w_perf_archived.Tracer.Tx.Refine.{reply_of, printed_of, answer, Implements, Follows}

printed_not_none : {es : List Bytes} → Listed es none → ⊥
printed_not_none (nothing h e) = cc
printed_not_none (all h e) = cc
printed_not_none (some_first x ds rs h e) = cc

is_on-all_probes : (h : Hook) (b : Bool) → is_on h (all_probes b) ≡ b
is_on-all_probes Hook.tcp_sendmsg b = refl
is_on-all_probes Hook.udp_sendmsg b = refl
is_on-all_probes Hook.tcp_sendpage b = refl
is_on-all_probes Hook.udp_sendpage b = refl
is_on-all_probes Hook.sock_sendmsg b = refl

-- What a call does to the state, where the probes stand as one flag says.
send-counting :
    (s : Send) (t : Tx) (b : Bool)
    → t.probes ≡ all_probes b
    → send s t ≡ (if b then add_bytes s.pid s.size t else t)
unfolding send
send-counting s t b e = rw (e, is_on-all_probes s.hook b, handler-add_bytes s.hook) refl

module _ (K : Kernel) (t : Tx) (w : Watch) (i : Implements t w) where
  enable-Follows : (val : ℕ) → Follows K w (enable val) (answer K (enable val) t)
  unfolding answer tx_stats_enable_write enable_tx_stat_probes disable_tx_stat_probes member
  enable-Follows val = elim (Bool-cases (val % 256 == 0)) [
    | inl e ↦ (
      _,
      disabling (ground arith),
      rw e (refl, record { filter = λ n. refl; bytes = i.bytes; enabled = refl; probes = refl }),
    )
    | inr e ↦ (
      _,
      enabling (ground arith),
      rw e (refl, record { filter = i.filter; bytes = i.bytes; enabled = refl; probes = refl }),
    )
  ]

  -- The cases of a write to `filter` whose text is copied, by how its tokens are read.
  read-Follows :
      (text : Bytes) (ps : List ℕ) (o : Option Parsed)
      → PidsOf K text ps o
      → Follows K w (filter true text) (reply_of (tx_stats_filter_write K true text t))
  unfolding member
  read-Follows text ps none r =
      let (t', e, f, bytes, enabled, probes) = tx_stats_filter_write-ok K text t ps r in
      (
        _,
        adding r,
        rw e (
          refl,
          record {
            filter = λ n.
                f n ∙ ap (λ b. b || among n ps) (i.filter n) ∙ sym (member-add_list n ps w.watched);
            bytes = λ n. ap (λ (g : ℕ → ℕ). g n) bytes ∙ i.bytes n;
            enabled = enabled ∙ i.enabled;
            probes = probes ∙ ap all_probes i.enabled;
          },
        ),
      )
  read-Follows text ps (some (value p)) r =
      (_, overrunning r, rw (tx_stats_filter_write-beyond K text t ps p r) tt)
  read-Follows text ps (some (bad e)) r =
      let (t', q, f, bytes, enabled, probes) = tx_stats_filter_write-wrong K text t ps e r in
      (
        _,
        refusing r,
        rw q (
          refl,
          record {
            filter = f;
            bytes = λ n. ap (λ (g : ℕ → ℕ). g n) bytes ∙ i.bytes n;
            enabled = enabled ∙ i.enabled;
            probes = probes;
          },
        ),
      )

  filter-Follows :
      (dup : Bool) (text : Bytes) → Follows K w (filter dup text) (answer K (filter dup text) t)
  unfolding answer
  filter-Follows false text = (_, no_memory, unfold tx_stats_filter_write in (refl, i))
  filter-Follows true text =
      let (ps, o, r) = Reads-total K (all_tokens (K.strstrip text)) in read-Follows text ps o r

  counts-sent : map (sent K t) (set_bits t.filter K.pid_max) ≡ counts K w
  counts-sent j =
      map (λ n. K.dec n ++ b'=' ∷ K.ld (i.bytes n j)) (set_bits (λ n. i.filter n j) K.pid_max)

  rearmed :
      Implements (record t { probes = all_probes t.tx_enabled }) (record w { counting = w.enabled })
  rearmed = record {
    filter = i.filter;
    bytes = i.bytes;
    enabled = i.enabled;
    probes = ap all_probes i.enabled;
  }

  print-Follows :
      (o : Option Seq)
      → Listed (counts K w) o
      → Follows K w output
          (printed_of (with_state (record t { probes = all_probes t.tx_enabled }) o))
  print-Follows none l = absurd (printed_not_none l)
  print-Follows (some s) l = (_, printing l, (refl, rearmed))

  output-Follows : Follows K w output (answer K output t)
  unfolding answer
  output-Follows =
      let (o, l, e) = tx_stats_output_read-Listed K t in
      rw e (print-Follows o (subst (λ es. Listed es o) counts-sent l))

  counted-Implements :
      (s : Send) (counting watched : Bool)
      → Implements
          (if counting
            then (if watched
                then (record t {
                  tx_stats = update t.tx_stats s.pid ((t.tx_stats s.pid + s.size) % 2 ^ 64);
                })
                else t)
            else t)
          (if counting && watched
            then (record w { bytes = update w.bytes s.pid ((w.bytes s.pid + s.size) % 2 ^ 64) })
            else w)
  counted-Implements s true true = record {
    filter = i.filter;
    bytes = λ n j. update (λ m. i.bytes m j) s.pid ((i.bytes s.pid j + s.size) % 2 ^ 64) n;
    enabled = i.enabled;
    probes = i.probes;
  }
  counted-Implements s true false = i
  counted-Implements s false _ = i

  sent-Implements : (s : Send) → Implements (send s t) (counted s w)
  unfolding add_bytes
  sent-Implements s =
      rw (send-counting s t w.counting i.probes, i.filter s.pid)
        (counted-Implements s w.counting (member s.pid w.watched))

  sent-Follows : (s : Send) → Follows K w (Calls.sent s) (answer K (Calls.sent s) t)
  unfolding answer
  sent-Follows s = (_, sending, (refl, sent-Implements s))

  pub call-Follows : (c : Call) → Follows K w c (answer K c t)
  call-Follows (enable val) = enable-Follows val
  call-Follows (filter dup text) = filter-Follows dup text
  call-Follows output = output-Follows
  call-Follows (Calls.sent s) = sent-Follows s
