-- ===== src/Recorder/Pump/Drain.antt =====
-- The end of a recording: what is left in the pipe when the recorder has expired.
use w_perf_archived.Base.{
  ◌+◌, ◌≤◌, ◌<◌, ◌≡◌, refl, ap, sym, ◌∙◌, true, List, [], ◌∷◌, ◌++◌, arith, length, drop,
  append-nil, append_assoc, take-all, take-length, All,
}
use w_perf_archived.Recorder.Pump.{
  Bytes, Ctx, read, write, got, again, ok, buffer_len, cleanup, on_write, on_read,
}
use w_perf_archived.Recorder.Pump.Steps.{State, did_read, wrote, fill, flush, Reach, next}

abbrev pub concat : List Bytes → Bytes
concat [] = []
concat (b ∷ bs) = b ++ concat bs

-- What a read of the pipe can give.
abbrev pub Chunk : Bytes → Type 0
Chunk b = (0 < length b) × (length b ≤ buffer_len)

-- The callbacks of a read that gives `b` and of the write of it, in an expired recorder.
unfoldable pub copy : Bytes → Ctx → Ctx
unfolding on_read on_write
copy b c =
    let c = on_read true (got b) (fill (got b) [] c) in
    on_write (ok (length b)) (flush b (ok (length b)) [] c)

unfoldable pub drain : List Bytes → Ctx → Ctx
unfolding copy on_read
drain [] c = on_read true again (fill again [] c)
drain (b ∷ bs) c = drain bs (copy b c)

abbrev on_expired : Ctx → State
on_expired c = record { ctx = c; expired = true }

copy-Reach :
    (buf : Bytes) (c : Ctx) (b : Bytes)
    → Reach buf (on_expired c)
    → c.pending ≡ read buffer_len ∷ []
    → Chunk b
    → Reach buf (on_expired (copy b c))
unfolding copy on_read
copy-Reach buf c [] r e (h, k) = absurd (omega arith)
copy-Reach buf c (y ∷ ys) r e (h, k) =
    let rest = drop (length (y ∷ ys)) c.iov_base in
    let one = next r (did_read [] [] buffer_len (got (y ∷ ys)) e k) in
    next one (
      wrote [] [] (y ∷ ys) (ok (length (y ∷ ys)))
        (ap (λ t. write (y ∷ t) ∷ []) (take-length ys rest)) (omega arith))

-- `copy` moves its bytes and asks for the next read.
record Moved (b : Bytes) (c d : Ctx) : Type 0 where
  output : d.output ≡ c.output ++ b
  pending : d.pending ≡ read buffer_len ∷ []
  closed : d.closed ≡ c.closed
  lost : d.lost ≡ c.lost

copy-Moved :
    (c : Ctx) (b : Bytes) → c.pending ≡ read buffer_len ∷ [] → Chunk b → Moved b c (copy b c)
unfolding copy on_read on_write
copy-Moved c [] e (h, k) = absurd (omega arith)
copy-Moved c (y ∷ ys) e (h, k) = record {
  output = ap (λ t. c.output ++ y ∷ t) (take-all (length ys) ys (omega arith));
  pending = refl;
  closed = refl;
  lost = omega arith;
}

-- A recording that ended: the files are closed, and nothing waits.
pub record Ended (bs : List Bytes) (c d : Ctx) : Type 0 where
  pub output : d.output ≡ c.output ++ concat bs
  pub pending : d.pending ≡ []
  pub closed : d.closed ≡ c.closed + 1
  pub lost : d.lost ≡ c.lost

-- In an expired recorder that waits for a read: if the reads give the chunks `bs`, none empty and
-- none above the buffer, and then `UV_EAGAIN`, and each write takes its bytes, then the callbacks,
-- run one after the other, write all the chunks, close the files once, and leave no request behind;
-- and libuv can run them so.
pub drain-Ended :
    (buf : Bytes) (bs : List Bytes) (c : Ctx)
    → Reach buf (record { ctx = c; expired = true })
    → c.pending ≡ read buffer_len ∷ []
    → All Chunk bs
    → Ended bs c (drain bs c) × Reach buf (record { ctx = drain bs c; expired = true })
unfolding drain on_read cleanup
drain-Ended buf [] c r e h = (
  record { output = sym (append-nil c.output); pending = refl; closed = refl; lost = refl },
  next r (did_read [] [] buffer_len again e (omega arith)),
)
drain-Ended buf (b ∷ bs) c r e (h, hs) =
    let m = copy-Moved c b e h in
    let (d, r') = drain-Ended buf bs (copy b c) (copy-Reach buf c b r e h) m.pending hs in
    (
      record {
        output = d.output ∙ ap (λ t. t ++ concat bs) m.output ∙ append_assoc c.output b (concat bs);
        pending = d.pending;
        closed = d.closed ∙ ap (λ n. n + 1) m.closed;
        lost = d.lost ∙ m.lost;
      },
      r',
    )
