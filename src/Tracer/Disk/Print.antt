-- ===== src/Tracer/Disk/Print.antt =====
-- What the read handlers of `disk_utils` print.
use w_perf_archived.Base.{
  ap₂, suc-sub-one, suc-==-zero, ℕ, zero, suc, ◌+◌, ◌*◌, ◌<◌, ◌≤◌, ◌≡◌, refl, ap, sym, ◌∙◌, Bool,
  true, false, List, [], ◌∷◌, ◌++◌, arith, if◌then◌else◌, length, length-append, append_assoc,
}
use w_perf_archived.Tracer.Text.{Bytes, codes, comma, newline, with_commas, join}
use w_perf_archived.Tracer.Text.Tokens.{with_commas-join, with_commas-append}
use w_perf_archived.Tracer.Kernel.{Kernel, Seq, empty_seq, trace_seq_puts}
use w_perf_archived.Tracer.Disk.{
  Disk, max_disk_num, dutil, print_loop, print_list, entry, usage, dutils_filter_read,
  dutils_output_read,
}
use w_perf_archived.Tracer.Disk.Valid.{Valid}
use w_perf_archived.Tracer.Disk.Names.{names_to, names}

-- `f 0 … f (n - 1)`.
unfoldable pub entries : (ℕ → Bytes) → ℕ → List Bytes
entries f zero = []
entries f (suc n) = entries f n ++ f n ∷ []

-- More than the longest entry of either file.
abbrev pub entry_room : ℕ
entry_room = 48

module _ (f : ℕ → Bytes) where
  length-entries :
      (n : ℕ)
      → ((i : ℕ) → i < n → length (f i) < entry_room)
      → length (with_commas (entries f n)) ≤ 49 * n
  unfolding entries
  length-entries zero h = unfold with_commas in omega arith
  length-entries (suc n) h = rw (with_commas-append (entries f n) (f n)) (
      omega (
        arith,
        length-append (with_commas (entries f n)) (f n ++ comma ∷ []),
        length-append (f n) (comma ∷ []),
        h n (omega arith),
        length-entries n (λ i p. h i (omega arith)),
      ))

  -- Entries that fit the page are all printed.
  print_loop-entries :
      (K : Kernel) (n : ℕ)
      → ((i : ℕ) → i < n → length (f i) < entry_room)
      → 49 * n + 1 < K.page_size
      → print_loop K f n empty_seq ≡ record { text = with_commas (entries f n); full = false }
  unfolding print_loop entries
  print_loop-entries K zero h fits = unfold with_commas in refl
  print_loop-entries K (suc n) h fits =
      ap (K.printf (f n ++ comma ∷ []))
        (print_loop-entries K n (λ i p. h i (omega arith)) (omega arith))
      ∙ K.prints (f n ++ comma ∷ []) _ refl (
          omega (
            arith,
            length-entries n (λ i p. h i (omega arith)),
            h n (omega arith),
            length-append (f n) (comma ∷ []),
          ))
      ∙ ap (λ t. record { text = t; full = false }) (sym (with_commas-append (entries f n) (f n)))

  print_last :
      (K : Kernel) (n : ℕ)
      → ((i : ℕ) → i < suc n → length (f i) < entry_room)
      → n < max_disk_num
      → K.printf (f n ++ newline ∷ []) (print_loop K f n empty_seq)
        ≡ record { text = with_commas (entries f n) ++ (f n ++ newline ∷ []); full = false }
  print_last K n h few =
      ap (K.printf (f n ++ newline ∷ []))
        (print_loop-entries K n (λ i p. h i (omega arith)) (omega (arith, K.page)))
      ∙ K.prints (f n ++ newline ∷ []) _ refl (
          omega (
            arith,
            K.page,
            length-entries n (λ i p. h i (omega arith)),
            h n (omega arith),
            length-append (f n) (newline ∷ []),
          ))

  print_list-suc :
      (K : Kernel) (n : ℕ)
      → print_list K f (suc n) empty_seq
        ≡ K.printf (f n ++ newline ∷ []) (print_loop K f n empty_seq)
  print_list-suc K n = rw (suc-==-zero n, suc-sub-one n)

  -- One line, of the entries with a comma between each two.
  pub print_list-join :
      (K : Kernel) (n : ℕ)
      → ((i : ℕ) → i < n → length (f i) < entry_room)
      → 0 < n
      → n ≤ max_disk_num
      → print_list K f n empty_seq
        ≡ record { text = join (entries f n) ++ newline ∷ []; full = false }
  unfolding entries
  print_list-join K zero h pos few = absurd (omega arith)
  print_list-join K (suc n) h pos few =
      print_list-suc K n
      ∙ print_last K n h (omega arith)
      ∙ ap (λ t. record { text = t; full = false })
          (sym (append_assoc (with_commas (entries f n)) (f n) (newline ∷ []))
            ∙ ap (λ t. t ++ newline ∷ []) (with_commas-join (entries f n) (f n)))

-- Nothing to list is printed as "none".
pub print_list-none :
    (K : Kernel) (f : ℕ → Bytes)
    → print_list K f 0 empty_seq ≡ record { text = codes "none" ++ newline ∷ []; full = false }
unfolding trace_seq_puts
print_list-none K f = ground (arith, K.page, K.page_word)

names-entries : (d : Disk) (n : ℕ) → names_to d n ≡ entries (entry d) n
unfolding names_to entries
names-entries d zero = refl
names-entries d (suc n) = rw (names-entries d n)

-- Reading `filter` prints the names in use, in their order, with a comma between each two.
pub dutils_filter_read-names :
    (K : Kernel) (d : Disk)
    → Valid d
    → 0 < d.didx
    → dutils_filter_read K d empty_seq
      ≡ record { text = join (names d) ++ newline ∷ []; full = false }
unfolding dutils_filter_read names
dutils_filter_read-names K d v used =
    rw (names-entries d d.didx)
      (print_list-join (entry d) K d.didx (λ i h. omega (arith, v.named i h)) used v.few)

abbrev pub none_line : Seq
none_line = record { text = codes "none" ++ newline ∷ []; full = false }

pub dutils_filter_read-none :
    (K : Kernel) (d : Disk) → d.didx ≡ 0 → dutils_filter_read K d empty_seq ≡ none_line
unfolding dutils_filter_read
dutils_filter_read-none K d h =
    ap (λ n. print_list K (entry d) n empty_seq) h ∙ print_list-none K (entry d)

usage-length :
    (K : Kernel) (d : Disk) (i : ℕ)
    → length (usage K d i) ≡ length (entry d i) + suc (length (K.ld (dutil d i)))
usage-length K d i = length-append (entry d i) (b'=' ∷ K.ld (dutil d i))

pub rearm :
    (d : Disk) (b : Bool)
    → (if b then (record d { armed = true }) else record d { armed = false })
      ≡ record d { armed = b }
rearm d true = refl
rearm d false = refl

-- From a valid state with a slot in use, reading `output` prints the name and the counter of each
-- slot in use, none cut off, and leaves the state as it was, but for the probe, which is on
-- afterwards exactly if the event is enabled.
pub dutils_output_read-usages :
    (K : Kernel) (d : Disk)
    → Valid d
    → 0 < d.didx
    → dutils_output_read K d empty_seq ≡ (
      record { text = join (entries (usage K d) d.didx) ++ newline ∷ []; full = false },
      record d { armed = d.denabled },
    )
unfolding dutils_output_read
dutils_output_read-usages K d v used =
    ap₂ (λ (s : Seq) (e : Disk). (s, e))
      (print_list-join (usage K d) K d.didx
        (λ i h. omega (arith, v.named i h, K.ld_short (dutil d i), usage-length K d i)) used v.few)
      (rearm d d.denabled)
