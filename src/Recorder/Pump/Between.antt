-- ===== src/Recorder/Pump/Between.antt =====
-- The invariant of a context, and what holds between the completion of a request and its callback.
use mathlib.Core.Path.{subst}
use w_perf_archived.Base.{
  ℕ, ◌+◌, ◌≤◌, ◌≡◌, refl, sym, ◌∙◌, Bool, true, false, List, [], ◌∷◌, ◌++◌, arith, length,
  append-nil,
}
use w_perf_archived.Recorder.Pump.{
  Bytes, Ctx, Request, opening, read, write, retry, ReadResult, got, again, failed, Result, ok,
  error, buffer_len, cleanup, on_write, on_read, on_open, post,
}
use w_perf_archived.Recorder.Pump.Steps.{received}

-- The bytes that are on their way from the pipe to the file.
abbrev pub in_flight : List Request → Bytes
in_flight (write bs ∷ rs) = bs
in_flight _ = []

-- A read asks for the whole buffer, and so will the next read; a write has at most the buffer.
abbrev pub Full : ℕ → Request → Type 0
Full len (read n) = (n ≡ buffer_len) × (len ≡ buffer_len)
Full len (write bs) = length bs ≤ buffer_len
Full len retry = len ≡ buffer_len
Full len opening = len ≡ buffer_len

-- One request is pending as long as the files are open, and none once they are closed.
abbrev pub Single : ℕ → ℕ → List Request → Type 0
Single len closed [] = closed ≤ 1
Single len closed (r ∷ []) = (closed ≡ 0) × Full len r
Single len closed (r ∷ q ∷ rs) = ⊥

pub record Inv (c : Ctx) : Type 0 where
  pub single : Single c.iov_len c.closed c.pending
  pub account : length c.input ≡ length c.output + c.lost + length (in_flight c.pending)
  pub exact : c.lost ≡ 0 → c.input ≡ c.output ++ in_flight c.pending

pub Single-pending :
    (len closed : ℕ) (ps qs : List Request) (r : Request) {all : List Request}
    → Single len closed all
    → all ≡ ps ++ r ∷ qs
    → (ps ≡ []) × (qs ≡ []) × (closed ≡ 0) × Full len r
Single-pending len closed [] [] r s e =
    let (h, k) = subst (Single len closed) e s in (refl, refl, h, k)
Single-pending len closed [] (q ∷ qs) r s e = absurd (subst (Single len closed) e s)
Single-pending len closed (p ∷ []) qs r s e = absurd (subst (Single len closed) e s)
Single-pending len closed (p ∷ q ∷ ps) qs r s e = absurd (subst (Single len closed) e s)

-- The state behind the completion of a request, before its callback: nothing is pending.
pub record Between (c : Ctx) : Type 0 where
  pub none_pending : c.pending ≡ []
  pub still_open : c.closed ≡ 0
  pub account : length c.input ≡ length c.output + c.lost
  pub exact : c.lost ≡ 0 → c.input ≡ c.output

pub Between-cleanup : {c : Ctx} → Between c → Inv (cleanup c)
unfolding cleanup
Between-cleanup {c} b = record {
  single = rw (b.none_pending, b.still_open) (omega arith);
  account = rw b.none_pending (omega (arith, b.account));
  exact = λ z. rw b.none_pending (b.exact z ∙ sym (append-nil c.output));
}

pub Between-post :
    {c : Ctx} (r : Request)
    → in_flight (r ∷ []) ≡ []
    → Full c.iov_len r
    → Between c
    → Inv (post r c)
Between-post {c} r e f b = record {
  single = rw b.none_pending (b.still_open, f);
  account = rw (b.none_pending, e) (omega (arith, b.account));
  exact = λ z. rw (b.none_pending, e) (b.exact z ∙ sym (append-nil c.output));
}

pub on_open-Inv : (r : Result) {c : Ctx} → c.iov_len ≡ buffer_len → Between c → Inv (on_open r c)
unfolding on_open
on_open-Inv error {c} f b = record {
  single = rw (b.none_pending, b.still_open) (omega arith);
  account = rw b.none_pending (omega (arith, b.account));
  exact = λ z. rw b.none_pending (b.exact z ∙ sym (append-nil c.output));
}
on_open-Inv (ok fd) {c} f b =
    Between-post (read c.iov_len) refl (f, f)
      (record {
        none_pending = b.none_pending;
        still_open = b.still_open;
        account = b.account;
        exact = b.exact;
      })

pub on_write-Inv : (r : Result) {c : Ctx} → Between c → Inv (on_write r c)
unfolding on_write
on_write-Inv error b = Between-cleanup b
on_write-Inv (ok n) b =
    Between-post (read buffer_len) refl (refl, refl)
      (record {
        none_pending = b.none_pending;
        still_open = b.still_open;
        account = b.account;
        exact = b.exact;
      })

-- A read that gives no byte.
pub on_read-none :
    (x : Bool) (r : ReadResult) {c : Ctx}
    → received r ≡ []
    → c.iov_len ≡ buffer_len
    → Between c
    → Inv (on_read x r c)
unfolding on_read
on_read-none x (got []) e f b = Between-cleanup b
on_read-none x (got (y ∷ ys)) e f b = cc
on_read-none true again e f b = Between-cleanup b
on_read-none false again e f b = Between-post retry refl f b
on_read-none x failed e f b = Between-cleanup b
