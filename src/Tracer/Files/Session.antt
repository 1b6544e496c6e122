-- ===== src/Tracer/Files/Session.antt =====
-- A write and a read of `disk_utils/filter`, as user space makes them.
use w_perf_archived.Base.{
  ℕ, ◌*◌, ◌<◌, ◌≤◌, ◌≡◌, refl, ap, ◌∙◌, true, false, some, List, [], ◌∷◌, ◌++◌, arith, leb, length,
  take, take-length, All, length-append,
}
use w_perf_archived.Tracer.Text.{Bytes, newline, comma, cstr, join, IsText}
use w_perf_archived.Tracer.Text.Tokens.{IsToken}
use w_perf_archived.Tracer.Kernel.{Kernel, Seq, ok}
use w_perf_archived.Tracer.Disk.{Disk, max_disk_num, dutils_filter_write}
use w_perf_archived.Tracer.Disk.Valid.{Valid}
use w_perf_archived.Tracer.Disk.Filter.{AllShort, dutils_filter_read-write, line, line-IsText}
use w_perf_archived.Tracer.Files.{
  Luck, Reply, UserCopy, store_done, filter_write_generic, read_generic,
}
use w_perf_archived.Tracer.Files.Ops.{ev_dutils_filter}
use w_perf_archived.Tracer.Files.Laws.{simple_read-all}

abbrev pub lucky : Luck
lucky = record { page = true; copy = true; dup = true }

cstr_self : (s : Bytes) → IsText s → cstr s ≡ s
unfolding cstr
cstr_self [] h = refl
cstr_self (c ∷ s) (h, hs) = ground (arith, cstr_self s hs)

length-join :
    (t : Bytes) (ts : List Bytes)
    → AllShort (t ∷ ts)
    → length (join (t ∷ ts)) < 20 * length (t ∷ ts)
unfolding join
length-join t [] (h, hs) = omega arith
length-join t (u ∷ ts) (h, hs) =
    omega (arith, length-append t (comma ∷ join (u ∷ ts)), length-join u ts hs)

write_text :
    (K : Kernel) (text behind : Bytes) (d d' : Disk)
    → leb K.page_size (length text) ≡ false
    → dutils_filter_write K true (cstr (take (length text) (text ++ behind))) d ≡ some (ok 0, d')
    → filter_write_generic K lucky (ev_dutils_filter K) (text ++ behind) (length text) 0 d
      ≡ some (ok (length text), length text, d')
unfolding filter_write_generic
write_text K text behind d d' small done = rw small (
    ap (store_done (length text) 0) done
    ∙ ap (λ (k : ℕ). some (ok (length text), k, d')) (omega arith))

-- From a valid state, a list of at least one and at most 20 names of at most 19 bytes, written with
-- a newline to `disk_utils/filter` in one system call whose allocations and copy succeed, is taken
-- whole whatever follows it in the user's memory, and a read of the file from its start that asks
-- for enough gives back just these bytes.
pub filter_session :
    (K : Kernel) (U : UserCopy) (t : Bytes) (ts : List Bytes) (behind : Bytes) (d : Disk) (n : ℕ)
    → Valid d
    → All IsToken (t ∷ ts)
    → AllShort (t ∷ ts)
    → length (t ∷ ts) ≤ max_disk_num
    → let text = join (t ∷ ts) ++ newline ∷ [] in
      length text ≤ n
      → (d' : Disk) × (filter_write_generic K lucky
            (ev_dutils_filter K)
            (text ++ behind)
            (length text)
            0
            d
          ≡ some (ok (length text), length text, d'))
        × (read_generic U true (some (ev_dutils_filter K)) n 0 d'
            ≡ some (record { ret = ok (length text); ppos = length text; out = text }, d'))
unfolding read_generic line
filter_session K U t ts behind d n v tokens short few room =
    let text : Bytes = join (t ∷ ts) ++ newline ∷ [] in
    let (d', w, r) = dutils_filter_read-write K t ts d v tokens short few in
    let small : leb K.page_size (length text) ≡ false =
      ground
        (arith, K.page, length-append (join (t ∷ ts)) (newline ∷ []), length-join t ts short) in
    let arg : cstr (take (length text) (text ++ behind)) ≡ text =
      ap cstr (take-length text behind) ∙ cstr_self text (line-IsText K t ts tokens) in
    (
      d',
      write_text K text behind d d' small (ap (λ a. dutils_filter_write K true a d) arg ∙ w),
      ap (λ (q : Seq). some (U.simple_read n 0 q.text, d')) r
          ∙ ap (λ (x : Reply). some (x, d')) (simple_read-all U n text room),
    )
