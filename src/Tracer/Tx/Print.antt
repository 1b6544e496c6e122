-- ===== src/Tracer/Tx/Print.antt =====
-- What the read handlers of `tx_stat` print.
use mathlib.Core.Path.{subst}
use mathlib.Core.List.{map, map-append}
use w_perf_archived.Base.{
  suc-==-zero, ℕ, zero, suc, ◌+◌, ◌-◌, ◌<◌, ◌≤◌, ◌≡◌, ◌≢◌, refl, ap, sym, ◌∙◌, Bool, true, false,
  Option, some, List, [], ◌∷◌, ◌++◌, arith, inl, inr, if◌then◌else◌, leb, Bool-cases, length,
  length-append, take, append_assoc,
}
use w_perf_archived.Tracer.Text.{Bytes, codes, comma, newline, with_commas, join}
use w_perf_archived.Tracer.Text.Tokens.{with_commas-append, with_commas-end}
use w_perf_archived.Tracer.Kernel.{Kernel, Seq, empty_seq, trace_seq_puts, trace_seq_nl}
use w_perf_archived.Tracer.Tx.Filter.{all_probes, resume-off}
use w_perf_archived.Tracer.Tx.{
  Tx, print_bits, end_line, tx_stats_filter_read, tx_stats_output_read, sent, with_state,
}

-- The bits that are set below `n`, in increasing order.
pub set_bits : (ℕ → Bool) → ℕ → List ℕ
set_bits bits zero = []
set_bits bits (suc n) = if bits n then set_bits bits n ++ n ∷ [] else set_bits bits n

-- What the loop has printed of the entries `es`, from an empty buffer: all of them, or the first
-- ones, at least one, up to one that did not fit.
pub data Printed (page : ℕ) (es : List Bytes) (s : Seq) : Type 0 where
  whole :
      s ≡ record { text = with_commas es; full = false }
      → length (with_commas es) + 1 < page
      → Printed page es s
  part :
      (e : Bytes) (ds rs : List Bytes)
      → es ≡ (e ∷ ds) ++ rs
      → s ≡ record { text = with_commas (e ∷ ds); full = true }
      → Printed page es s

append-unit : (e : Bytes) → e ++ comma ∷ [] ≡ with_commas (e ∷ [])
unfolding with_commas
append-unit e = refl

module _ (K : Kernel) (e : Bytes) (short : length e ≤ 64) where
  -- The first entry fits, and a later one is added whole or not at all.
  printf-first :
      K.printf (e ++ comma ∷ []) (record { text = []; full = false })
      ≡ record { text = e ++ comma ∷ []; full = false }
  printf-first =
      K.prints (e ++ comma ∷ []) (record { text = []; full = false }) refl
        (omega (arith, K.page, length-append e (comma ∷ [])))

  printf-later :
      (d : Bytes) (ds : List Bytes)
      → length (with_commas (d ∷ ds)) + 1 < K.page_size
      → Printed K.page_size
          (d ∷ ds ++ e ∷ [])
          (K.printf (e ++ comma ∷ []) (record { text = with_commas (d ∷ ds); full = false }))
  printf-later d ds room =
      elim (K.prints-whole (e ++ comma ∷ []) (record { text = with_commas (d ∷ ds); full = false })
        refl room) [
          | inl (fits, more) ↦
              whole
                (fits
                  ∙ ap (λ t. record { text = t; full = false })
                      (sym (with_commas-append (d ∷ ds) e)))
                (omega (
                  arith,
                  more,
                  ap length (with_commas-append (d ∷ ds) e),
                  length-append (with_commas (d ∷ ds)) (e ++ comma ∷ []),
                ))
          | inr full ↦ part d ds (e ∷ []) refl full
        ]

  -- One more entry.
  Printed-printf :
      (es : List Bytes) (s : Seq)
      → Printed K.page_size es s
      → Printed K.page_size (es ++ e ∷ []) (K.printf (e ++ comma ∷ []) s)
  unfolding with_commas
  Printed-printf es s (part d ds rs h k) =
      part d ds (rs ++ e ∷ []) (ap (λ l. l ++ e ∷ []) h ∙ append_assoc (d ∷ ds) rs (e ∷ []))
        (K.prints-full (e ++ comma ∷ []) s (ap (λ (q : Seq). q.full) k) ∙ k)
  Printed-printf [] s (whole h room) =
      whole
        (ap (K.printf (e ++ comma ∷ [])) h
          ∙ printf-first
          ∙ ap (λ t. record { text = t; full = false }) (append-unit e))
        (omega (arith, K.page, ap length (append-unit e), length-append e (comma ∷ [])))
  Printed-printf (d ∷ ds) s (whole h room) =
      subst (λ q. Printed K.page_size (d ∷ ds ++ e ∷ []) (K.printf (e ++ comma ∷ []) q)) (sym h)
        (printf-later d ds room)

module _ (K : Kernel) (bits : ℕ → Bool) (show : ℕ → Bytes)
    (short : (n : ℕ) → length (show n) ≤ 64) where
  print_bits-Printed :
      (n : ℕ)
      → let r = print_bits K bits show n empty_seq in
        Printed K.page_size (map show (set_bits bits n)) r.0 × (r.1 ≡ length (set_bits bits n))
  unfolding print_bits set_bits
  print_bits-Printed zero =
      (whole (unfold with_commas in refl) (unfold with_commas in omega (arith, K.page)), refl)
  print_bits-Printed (suc n) = elim (Bool-cases (bits n)) [
    | inl e ↦
        let (p, m) = print_bits-Printed n in
        rw e (
          subst
              (λ es.
                Printed K.page_size es
                  (K.printf (show n ++ comma ∷ []) (print_bits K bits show n empty_seq).0))
              (sym (map-append show (set_bits bits n) (n ∷ [])))
              (Printed-printf K (show n) (short n) (map show (set_bits bits n)) _ p),
          omega (arith, m, length-append (set_bits bits n) (n ∷ [])),
        )
    | inr e ↦ rw e (print_bits-Printed n)
  ]

take-last : (s : Bytes) (c : ℕ) → take (length s) (s ++ c ∷ []) ≡ s
take-last [] c = refl
take-last (d ∷ s) c = ap (λ t. d ∷ t) (take-last s c)

-- The comma behind the last entry becomes the end of the line.
nl-comma :
    (s : Bytes) (c : ℕ) (b : Bool)
    → 0 < length s
    → trace_seq_nl (record { text = s ++ c ∷ []; full = b })
      ≡ some (record { text = s ++ newline ∷ []; full = b })
unfolding trace_seq_nl
nl-comma s c b h =
    let n : length (s ++ c ∷ []) ≡ length s + 1 = length-append s (c ∷ []) in
    let m : length (s ++ c ∷ []) - 1 ≡ length s = omega (arith, n) in
    let l : leb (length (s ++ c ∷ [])) 1 ≡ false = ground (arith, n) in rw (l, m, take-last s c)

length-join : (e : Bytes) (ds : List Bytes) → 0 < length e → 0 < length (join (e ∷ ds))
unfolding join
length-join e [] h = h
length-join e (d ∷ ds) h = omega (arith, length-append e (comma ∷ join (d ∷ ds)))

nl-join :
    (e : Bytes) (ds : List Bytes) (b : Bool)
    → 0 < length e
    → trace_seq_nl (record { text = with_commas (e ∷ ds); full = b })
      ≡ some (record { text = join (e ∷ ds) ++ newline ∷ []; full = b })
nl-join e ds b h =
    ap (λ t. trace_seq_nl (record { text = t; full = b })) (with_commas-end e ds)
    ∙ nl-comma (join (e ∷ ds)) comma b (length-join e ds h)

-- What a read prints of the entries `es`: "none" if there are none, or a line of all of them, or a
-- line of the first ones where the page is too small for all.
pub data Listed (es : List Bytes) (o : Option Seq) : Type 0 where
  nothing :
      es ≡ []
      → o ≡ some (record { text = codes "none" ++ newline ∷ []; full = false })
      → Listed es o
  all : es ≢ [] → o ≡ some (record { text = join es ++ newline ∷ []; full = false }) → Listed es o
  some_first :
      (e : Bytes) (ds rs : List Bytes)
      → es ≡ (e ∷ ds) ++ rs
      → o ≡ some (record { text = join (e ∷ ds) ++ newline ∷ []; full = true })
      → Listed es o

none_fits :
    (K : Kernel)
    → (trace_seq_puts K (codes "none" ++ newline ∷ []) empty_seq).1
      ≡ record { text = codes "none" ++ newline ∷ []; full = false }
unfolding trace_seq_puts
none_fits K = ground (arith, K.page, K.page_word)

line_of :
    (K : Kernel) (e : Bytes) (es : List Bytes) (s : Seq)
    → 0 < length e
    → {page : ℕ} → Printed page (e ∷ es) s
    → Listed (e ∷ es) (trace_seq_nl s)
line_of K e es s h (whole k room) = all (cc) (ap trace_seq_nl k ∙ nl-join e es false h)
line_of K e es s h (part d ds rs k l) =
    some_first d ds rs k (ap trace_seq_nl l ∙ nl-join d ds true (rw (← head_eq k) h))
  where
    head_eq : e ∷ es ≡ (d ∷ ds) ++ rs → e ≡ d
    head_eq q = cc

abbrev Shows : (ℕ → Bytes) → Type 0
Shows show = (n : ℕ) → (0 < length (show n)) × (length (show n) ≤ 64)

no_entries : (s : Seq) → {page : ℕ} → Printed page [] s → s ≡ empty_seq
unfolding with_commas
no_entries s (whole k room) = k
no_entries s (part d ds rs k l) = absurd (cc)

module _ (K : Kernel) (show : ℕ → Bytes) (f : Shows show) where
  listing :
      (ns : List ℕ) (r : Seq × ℕ)
      → Printed K.page_size (map show ns) r.0
      → r.1 ≡ length ns
      → Listed (map show ns) (end_line K r)
  unfolding end_line
  listing [] (s, c) p m = nothing refl (
      rw m (
        ap (λ q. some (trace_seq_puts K (codes "none" ++ newline ∷ []) q).1) (no_entries s p)
        ∙ ap some (none_fits K)))
  listing (n ∷ ns) (s, c) p m =
      rw (m, suc-==-zero (length ns)) (line_of K (show n) (map show ns) s (f n).0 p)

-- Reading `filter` lists the pids that are watched, in increasing order, and never stops at the
-- `BUG_ON`: all of them if they fit the page, and else the first ones.
pub tx_stats_filter_read-Listed :
    (K : Kernel) (t : Tx)
    → Listed (map K.dec (set_bits t.filter K.pid_max)) (tx_stats_filter_read K t empty_seq)
unfolding tx_stats_filter_read
tx_stats_filter_read-Listed K t =
    let f : Shows K.dec = λ n. (K.dec_filled n, omega (arith, K.dec_short n)) in
    let (p, m) = print_bits-Printed K t.filter K.dec (λ n. (f n).1) K.pid_max in
    listing K K.dec f (set_bits t.filter K.pid_max) _ p m

sent-Shows : (K : Kernel) (t : Tx) → Shows (sent K t)
sent-Shows K t n =
    let l = length-append (K.dec n) (b'=' ∷ K.ld (t.tx_stats n)) in
    (omega (arith, l, K.dec_filled n), omega (arith, l, K.dec_short n, K.ld_short (t.tx_stats n)))

-- Reading `output` lists the pids that are watched with their counters, in increasing order, and
-- never stops at the `BUG_ON`: all of them if they fit the page, and else the first ones. The state
-- is not changed but for the probes, which are on afterwards exactly if the event is enabled.
pub tx_stats_output_read-Listed :
    (K : Kernel) (t : Tx)
    → (o : Option Seq) × Listed (map (sent K t) (set_bits t.filter K.pid_max)) o
      × (tx_stats_output_read K t empty_seq
          ≡ with_state (record t { probes = all_probes t.tx_enabled }) o)
unfolding tx_stats_output_read
tx_stats_output_read-Listed K t =
    let (p, m) = print_bits-Printed K t.filter (sent K t) (λ n. (sent-Shows K t n).1) K.pid_max in
    (
      _,
      listing K (sent K t) (sent-Shows K t) (set_bits t.filter K.pid_max) _ p m,
      ap (λ u. with_state u (end_line K (print_bits K t.filter (sent K t) K.pid_max empty_seq)))
          (resume-off t),
    )
