-- ===== src/Recorder/Pump/Invariant.antt =====
-- What holds of a context in every state that libuv can bring it to.
use w_perf_archived.Base.{
  ℕ, ◌≤◌, ◌≡◌, refl, ap, sym, ◌∙◌, Bool, [], ◌∷◌, ◌++◌, arith, length, take, drop, length-append,
  append-nil, take-all, take-length, length-take_le,
}
use w_perf_archived.Recorder.Pump.{
  Bytes, Ctx, opening, read, write, retry, ReadResult, got, again, failed, Result, buffer_len,
  on_retry, on_read, init_event_ctx, record_event,
}
use w_perf_archived.Recorder.Pump.Steps.{
  State, Step, opened, did_read, wrote, rang, expire, received, taken, fill, flush, start, Reach,
  here, next,
}
use w_perf_archived.Recorder.Pump.Between.{
  in_flight, Inv, Between, Single-pending, Between-post, on_open-Inv, on_write-Inv, on_read-none,
}

module _ {c : Ctx} (i : Inv c) (z : c.closed ≡ 0) where
  open i use {account, exact}

  fill-none : (r : ReadResult) → received r ≡ [] → in_flight c.pending ≡ [] → Between (fill r [] c)
  fill-none r e e' = record {
    none_pending = refl;
    still_open = z;
    account = rw (e, append-nil) (omega (arith, rw e' at account));
    exact = λ l. rw (e, append-nil) (exact l ∙ ap (λ t. c.output ++ t) e' ∙ append-nil c.output);
  }

  fill-some :
      (x : Bool) (y : ℕ) (ys : Bytes)
      → in_flight c.pending ≡ []
      → length (y ∷ ys) ≤ buffer_len
      → Inv (on_read x (got (y ∷ ys)) (fill (got (y ∷ ys)) [] c))
  unfolding on_read
  fill-some x y ys e h =
      let same = take-length ys (drop (length (y ∷ ys)) c.iov_base) in
      record {
        single = (z, rw same h);
        account = rw same (omega (arith, rw e at account, length-append c.input (y ∷ ys)));
        exact = λ l.
            rw same
              (ap (λ t. t ++ y ∷ ys) (exact l ∙ ap (λ t. c.output ++ t) e ∙ append-nil c.output));
      }

  flush-Between :
      (bs : Bytes) (r : Result)
      → in_flight c.pending ≡ bs
      → taken r ≤ length bs
      → Between (flush bs r [] c)
  flush-Between bs r e h = record {
    none_pending = refl;
    still_open = z;
    account = omega (
      arith,
      rw e at account,
      length-append c.output (take (taken r) bs),
      length-take_le (taken r) bs h,
    );
    exact = λ l.
        exact (omega arith)
        ∙ ap (λ t. c.output ++ t) (e ∙ sym (take-all (taken r) bs (omega arith)));
  }

on_retry-Inv : {c : Ctx} → c.iov_len ≡ buffer_len → Between c → Inv (on_retry c)
unfolding on_retry
on_retry-Inv {c} f b = Between-post (read c.iov_len) refl (f, f) b

-- The completion of the only request that is pending.
idle-Between :
    {c : Ctx}
    → Inv c
    → c.closed ≡ 0
    → in_flight c.pending ≡ []
    → Between (record c { pending = [] })
idle-Between {c} i z e = record {
  none_pending = refl;
  still_open = z;
  account = omega (arith, rw e at i.account);
  exact = λ l. i.exact l ∙ ap (λ t. c.output ++ t) e ∙ append-nil c.output;
}

read-Inv :
    {c : Ctx} (x : Bool) (n : ℕ) (r : ReadResult)
    → Inv c
    → c.pending ≡ read n ∷ []
    → (c.closed ≡ 0) × (n ≡ buffer_len) × (c.iov_len ≡ buffer_len)
    → length (received r) ≤ n
    → Inv (on_read x r (fill r [] c))
read-Inv x n (got []) i e (z, f, g) h =
    on_read-none x _ refl g (fill-none i z (got []) refl (ap in_flight e))
read-Inv x n (got (y ∷ ys)) i e (z, f, g) h = fill-some i z x y ys (ap in_flight e) (omega arith)
read-Inv x n again i e (z, f, g) h =
    on_read-none x _ refl g (fill-none i z again refl (ap in_flight e))
read-Inv x n failed i e (z, f, g) h =
    on_read-none x _ refl g (fill-none i z failed refl (ap in_flight e))

pub Step-Inv : {s t : State} → Inv s.ctx → Step s t → Inv t.ctx
Step-Inv {s} i (opened ps qs r e) =
    let (p, q, z, f) = Single-pending _ _ ps qs opening i.single e in
    rw (p, q) (on_open-Inv r f (idle-Between i z (ap in_flight (rw (p, q) at e))))
Step-Inv {s} i (did_read ps qs n r e h) =
    let (p, q, z, f) = Single-pending _ _ ps qs (read n) i.single e in
    rw (p, q) (read-Inv s.expired n r i (rw (p, q) at e) (z, f.0, f.1) h)
Step-Inv {s} i (wrote ps qs bs r e h) =
    let (p, q, z, f) = Single-pending _ _ ps qs (write bs) i.single e in
    rw (p, q) (on_write-Inv r (flush-Between i z bs r (ap in_flight (rw (p, q) at e)) h))
Step-Inv {s} i (rang ps qs e) =
    let (p, q, z, f) = Single-pending _ _ ps qs retry i.single e in
    rw (p, q) (on_retry-Inv f (idle-Between i z (ap in_flight (rw (p, q) at e))))
Step-Inv i expire = i

pub start-Inv : (buf : Bytes) → Inv (start buf).ctx
unfolding record_event init_event_ctx
start-Inv buf = record { single = (refl, refl); account = omega arith; exact = λ l. refl }

-- Whatever libuv completes, with whatever result, and whenever the recorder expires: at most one
-- request is pending, and while one is the files are open; they are closed once at most; a read
-- asks for the whole buffer, and a write fits it. The number of bytes that were read is that of the
-- bytes written, of those that writes left out, and of those of the write that is pending; if no
-- write left any out, the file followed by the pending write is what was read.
pub Reach-Inv : (buf : Bytes) {s : State} → Reach buf s → Inv s.ctx
Reach-Inv buf here = start-Inv buf
Reach-Inv buf (next r st) = Step-Inv (Reach-Inv buf r) st
