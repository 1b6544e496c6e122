-- ===== src/Tracer/Disk/Refine/Output.antt =====
-- A read of `output` does what the specification says.
use w_perf_archived.Base.{
  ℕ, zero, suc, ◌<◌, ◌≡◌, refl, sym, ap, ap₂, ◌∙◌, false, some, List, [], ◌∷◌, ◌++◌, ◌==◌, length,
  length-append, get_or, drop, arith, Bool-cases, inl, inr,
}
use w_perf_archived.Tracer.Text.{Bytes, newline, join, cstr}
use w_perf_archived.Tracer.Kernel.{Kernel, Seq, empty_seq}
use w_perf_archived.Tracer.Disk.{print_list, Disk, dname, usage, dutils_output_read}
use w_perf_archived.Tracer.Disk.Valid.{Valid}
use w_perf_archived.Tracer.Disk.Names.{names, names_to, length-names_to}
use w_perf_archived.Tracer.Disk.Print.{rearm, print_list-none, entries, dutils_output_read-usages}
use w_perf_archived.Tracer.Disk.Calls.{output}
use w_perf_archived.Tracer.Disk.Spec.{printed, usages, text_of, call_spec}
use w_perf_archived.Tracer.Disk.Refine.{watch_of, answer, watched}
use w_perf_archived.Tracer.Disk.Refine.Filter.{names_to-dnames, watch}

length-entries : (f : ℕ → Bytes) (n : ℕ) → length (entries f n) ≡ n
unfolding entries
length-entries f zero = refl
length-entries f (suc n) = omega (arith, length-append (entries f n) (f n ∷ []), length-entries f n)

text_of-filled : (l : List Bytes) → 0 < length l → text_of l ≡ join l ++ newline ∷ []
text_of-filled [] h = absurd (omega arith)
text_of-filled (t ∷ ts) h = refl

get_or-drop : (cs : List ℕ) (n : ℕ) → get_or (drop 1 cs) n 0 ≡ get_or cs (suc n) 0
get_or-drop [] n = refl
get_or-drop (c ∷ cs) n = refl

usages-append :
    (K : Kernel) (xs : List Bytes) (y : Bytes) (cs : List ℕ)
    → usages K (xs ++ y ∷ []) cs
      ≡ usages K xs cs ++ (y ++ b'=' ∷ K.ld (get_or cs (length xs) 0)) ∷ []
usages-append K [] y cs = refl
usages-append K (x ∷ xs) y cs =
    ap (λ l. (x ++ b'=' ∷ K.ld (get_or cs 0 0)) ∷ l)
      (usages-append K xs y (drop 1 cs)
        ∙ ap (λ c. usages K xs (drop 1 cs) ++ (y ++ b'=' ∷ K.ld c) ∷ [])
            (get_or-drop cs (length xs)))

entries-usages :
    (K : Kernel) (d : Disk) (n : ℕ) → usages K (names_to d n) d.dutils ≡ entries (usage K d) n
unfolding names_to entries
entries-usages K d zero = refl
entries-usages K d (suc n) =
    usages-append K (names_to d n) (cstr (dname d n)) d.dutils
    ∙ ap₂ (λ l i. l ++ (cstr (dname d n) ++ b'=' ∷ K.ld (get_or d.dutils i 0)) ∷ [])
        (entries-usages K d n) (length-names_to d n)

abbrev seq : Bytes → Seq
seq t = record { text = t; full = false }

none-text :
    (K : Kernel) (f : ℕ → Bytes) (n : ℕ)
    → n ≡ 0
    → print_list K f n empty_seq ≡ record { text = text_of (entries f n); full = false }
unfolding entries
none-text K f n h =
    ap (λ m. print_list K f m empty_seq) h
    ∙ print_list-none K f
    ∙ ap (λ m. seq (text_of (entries f m))) (sym h)

-- What a read of `output` gives, with or without a slot in use.
output-text :
    (K : Kernel) (d : Disk)
    → Valid d
    → dutils_output_read K d empty_seq ≡ (
      record { text = text_of (entries (usage K d) d.didx); full = false },
      record d { armed = d.denabled },
    )
unfolding dutils_output_read
output-text K d v = elim (Bool-cases (d.didx == 0)) [
  | inl z ↦
      ap₂ (λ (s : Seq) (e : Disk). (s, e)) (none-text K (usage K d) d.didx (ground (arith, z)))
        (rearm d d.denabled)
  | inr z ↦
      dutils_output_read-usages K d v (ground (arith, z))
      ∙ ap (λ t. (seq t, record d { armed = d.denabled }))
          (sym (
            text_of-filled (entries (usage K d) d.didx)
              (ground (arith, z, length-entries (usage K d) d.didx))))
]

pub output-watched :
    (K : Kernel) (d : Disk)
    → Valid d
    → watched (answer K output d) ≡ call_spec K output (watch_of d)
unfolding answer names
output-watched K d v =
    ap (λ r. some (printed r.0.text, watch_of r.1)) (output-text K d v)
    ∙ ap₂ (λ ls l. some (printed (text_of ls), watch l d.dutils d.denabled d.denabled))
        (sym (entries-usages K d d.didx))
        (names_to-dnames (record d { armed = d.denabled }) d refl d.didx)
