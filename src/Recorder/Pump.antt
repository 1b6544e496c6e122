-- ===== src/Recorder/Pump.antt =====
-- One event context of recorder/event.c: the callbacks that copy a trace pipe to its output file
-- over libuv, one request at a time.
-- A context holds the requests that it has handed to libuv and that are not completed. The results
-- of libuv are arguments: a callback is a function of the result of its request.
pub mod Steps
pub mod Between
pub mod Invariant
pub mod Drain
use w_perf_archived.Base.{
  ℕ, zero, suc, ◌+◌, ◌-◌, ◌≡◌, Bool, true, false, Option, none, some, List, [], ◌∷◌, ◌++◌,
  if◌then◌else◌, length, take,
}

abbrev pub Bytes : Type 0
Bytes = List ℕ

-- The size of the buffer, `len` of `init_event_ctx`.
abbrev pub buffer_len : ℕ
buffer_len = 4096

-- A request that waits for its completion: a read asks for `iov.len` bytes, a write holds the bytes
-- of the buffer up to `iov.len`, a retry is the timer.
pub data Request : Type 0 where
  opening : Request
  read : ℕ → Request
  write : Bytes → Request
  retry : Request

-- The result of a read: the bytes that it put into the buffer, none at the end of the file;
-- `UV_EAGAIN`; another error.
pub data ReadResult : Type 0 where
  got : Bytes → ReadResult
  again : ReadResult
  failed : ReadResult

-- The result of an open or of a write: a number of at least 0, or an error.
pub data Result : Type 0 where
  ok : ℕ → Result
  error : Result

-- `struct event_ctx`, with three ghosts: what the reads gave, what the writes took, and how many
-- bytes were given to a write that did not take them.
pub record Ctx : Type 0 where
  pub fd0 : Option ℕ
  pub iov_base : Bytes
  pub iov_len : ℕ
  pub pending : List Request
  pub closed : ℕ
  pub input : Bytes
  pub output : Bytes
  pub lost : ℕ

abbrev pub post : Request → Ctx → Ctx
post r c = record c { pending = c.pending ++ r ∷ [] }

-- Close, sync and close again are done at once; `closed` counts how often.
unfoldable pub cleanup : Ctx → Ctx
cleanup c = record c { closed = c.closed + 1 }

unfoldable pub on_retry : Ctx → Ctx
on_retry c = post (read c.iov_len) c

unfoldable pub on_write : Result → Ctx → Ctx
unfolding cleanup
on_write error c = cleanup c
on_write (ok n) c = let c = record c { iov_len = buffer_len } in post (read c.iov_len) c

-- `expired` is the flag of the recorder. The bytes that were read are in the buffer.
unfoldable pub on_read : Bool → ReadResult → Ctx → Ctx
unfolding cleanup
on_read expired (got []) c = cleanup c
on_read expired (got (b ∷ bs)) c =
    let c = record c { iov_len = length (b ∷ bs) } in post (write (take c.iov_len c.iov_base)) c
on_read expired again c = if expired then cleanup c else post retry c
on_read expired failed c = cleanup c

unfoldable pub on_open : Result → Ctx → Ctx
on_open error c = c
on_open (ok fd) c = let c = record c { fd0 = some fd } in post (read c.iov_len) c

-- `buf` is what `malloc` returns.
unfoldable pub init_event_ctx : Bytes → Ctx
init_event_ctx buf = record {
  fd0 = none;
  iov_base = buf;
  iov_len = buffer_len;
  pending = [];
  closed = 0;
  input = [];
  output = [];
  lost = 0;
}

-- The body of the loop of `record_events`: the open of the pipe is handed to libuv.
unfoldable pub record_event : Bytes → Ctx
unfolding init_event_ctx
record_event buf = post opening (init_event_ctx buf)
