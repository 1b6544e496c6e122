-- ===== src/Recorder/Pump/Steps.antt =====
-- What libuv may do with a context: complete any request that is pending, with any result that fits
-- it, and call its callback.
use w_perf_archived.Base.{
  ℕ, ◌+◌, ◌-◌, ◌≤◌, ◌≡◌, Bool, true, false, List, [], ◌∷◌, ◌++◌, length, take, drop,
}
use w_perf_archived.Recorder.Pump.{
  Bytes, Ctx, Request, opening, read, write, retry, ReadResult, got, again, failed, Result, ok,
  error, on_retry, on_write, on_read, on_open, record_event,
}

-- The bytes of a read, which libuv has put into the buffer.
abbrev pub received : ReadResult → Bytes
received (got bs) = bs
received again = []
received failed = []

-- How many bytes of a write were taken.
abbrev pub taken : Result → ℕ
taken (ok n) = n
taken error = 0

-- A read puts its bytes over the start of the buffer.
abbrev pub fill : ReadResult → List Request → Ctx → Ctx
fill r ps c = record c {
  pending = ps;
  iov_base = received r ++ drop (length (received r)) c.iov_base;
  input = c.input ++ received r;
}

abbrev pub flush : Bytes → Result → List Request → Ctx → Ctx
flush bs r ps c = record c {
  pending = ps;
  output = c.output ++ take (taken r) bs;
  lost = c.lost + (length bs - taken r);
}

pub record State : Type 0 where
  pub ctx : Ctx
  pub expired : Bool

pub data Step (s : State) : State → Type 0 where
  opened :
      (ps qs : List Request) (r : Result)
      → s.ctx.pending ≡ ps ++ opening ∷ qs
      → Step s (record s { ctx = on_open r (record s.ctx { pending = ps ++ qs }) })
  did_read :
      (ps qs : List Request) (n : ℕ) (r : ReadResult)
      → s.ctx.pending ≡ ps ++ read n ∷ qs
      → length (received r) ≤ n
      → Step s (record s { ctx = on_read s.expired r (fill r (ps ++ qs) s.ctx) })
  wrote :
      (ps qs : List Request) (bs : Bytes) (r : Result)
      → s.ctx.pending ≡ ps ++ write bs ∷ qs
      → taken r ≤ length bs
      → Step s (record s { ctx = on_write r (flush bs r (ps ++ qs) s.ctx) })
  rang :
      (ps qs : List Request)
      → s.ctx.pending ≡ ps ++ retry ∷ qs
      → Step s (record s { ctx = on_retry (record s.ctx { pending = ps ++ qs }) })
  -- The timer of the recorder, or an interrupt.
  expire : Step s (record s { expired = true })

abbrev pub start : Bytes → State
start buf = record { ctx = record_event buf; expired = false }

pub data Reach (buf : Bytes) : State → Type 0 where
  here : Reach buf (start buf)
  next : {s t : State} → Reach buf s → Step s t → Reach buf t
