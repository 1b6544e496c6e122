-- ===== src/Tracer/Kernel.antt =====
-- What module/trace_wperf_events.c takes from the kernel: the error numbers, the sequence buffer,
-- and as a parameter the functions of lib/ and kernel/ that the handlers call, with what their
-- documentation promises. `trace_seq_puts` and `trace_seq_nl` are the module's own.
use w_perf_archived.Base.{
  ℕ, ◌+◌, ◌-◌, ◌%◌, ◌^◌, ◌≤◌, ◌<◌, ◌≡◌, ◌⊎◌, inl, inr, refl, Bool, true, false, Option, none, some,
  [], ◌∷◌, ◌++◌, ltb, leb, if◌then◌else◌, length, take, All,
}
use w_perf_archived.Tracer.Text.{Bytes, newline, IsGraph, IsBlank, IsText}

pub data Errno : Type 0 where
  einval enomem efault eperm enodev erange : Errno

-- What a handler returns: a count of at least zero, or the negative of an error number.
pub data Ret : Type 0 where
  ok : ℕ → Ret
  fail : Errno → Ret

-- `kstrtoul` and `kstrtoul_from_user`: a value, or an error number.
pub data Parsed : Type 0 where
  value : ℕ → Parsed
  bad : Errno → Parsed

-- `struct trace_seq`: `text` is `buffer[0 .. len)`.
pub record Seq : Type 0 where
  pub text : Bytes
  pub full : Bool

-- `trace_seq_init`.
abbrev pub empty_seq : Seq
empty_seq = record { text = []; full = false }

pub record Kernel : Type 0 where
  pub page_size : ℕ
  pub strstrip : Bytes → Bytes
  pub kstrtoul : Bytes → Parsed
  pub dec : ℕ → Bytes  -- "%d" of a number that is not negative
  pub ld : ℕ → Bytes  -- "%ld" of the 64 bits of a long
  pub printf : Bytes → Seq → Seq  -- `trace_seq_printf`, of the formatted text
  pub time_after : ℕ → ℕ → Bool
  pub pid_max : ℕ  -- `PID_MAX_LIMIT`
  pub page : 4096 ≤ page_size
  pub page_word : page_size ≤ 2 ^ 32
  -- White space goes at both ends, and nothing else.
  pub strips : (s blank : Bytes) → All IsGraph s → All IsBlank blank → strstrip (s ++ blank) ≡ s
  pub strips-text : (s : Bytes) → IsText s → IsText (strstrip s)
  pub dec_filled : (n : ℕ) → 0 < length (dec n)
  pub dec_short : (n : ℕ) → length (dec n) ≤ 20
  pub ld_short : (n : ℕ) → length (ld n) ≤ 20
  -- A text that fits is added; where there is room for a byte, one that does not fit changes nothing
  -- but the mark `full`; and nothing is added to a full buffer.
  pub prints :
      (t : Bytes) (s : Seq)
      → s.full ≡ false
      → length s.text + length t + 1 < page_size
      → printf t s ≡ record s { text = s.text ++ t }
  pub prints-whole :
      (t : Bytes) (s : Seq)
      → s.full ≡ false
      → length s.text + 1 < page_size
      → ((printf t s ≡ record s { text = s.text ++ t })
          × (length s.text + length t + 1 < page_size))
        ⊎ (printf t s ≡ record s { full = true })
  pub prints-full : (t : Bytes) (s : Seq) → s.full ≡ true → printf t s ≡ s

-- `int trace_seq_puts(struct trace_seq *s, const char *str)`; the subtraction is one of
-- unsigned longs.
unfoldable pub trace_seq_puts : Kernel → Bytes → Seq → ℕ × Seq
trace_seq_puts K str s =
    if s.full
    then (0, s)
    else if ltb ((K.page_size - 1 + 2 ^ 64 - length s.text) % 2 ^ 64) (length str)
    then (0, record s { full = true })
    else (length str, record s { text = s.text ++ str })

-- `trace_seq_nl`: `none` where `BUG_ON` stops the kernel.
unfoldable pub trace_seq_nl : Seq → Option Seq
trace_seq_nl s =
    if leb (length s.text) 1
    then none
    else some (record s { text = take (length s.text - 1) s.text ++ newline ∷ [] })

pub Parsed-cases : (p : Parsed) → ((e : Errno) × (p ≡ bad e)) ⊎ ((n : ℕ) × (p ≡ value n))
Parsed-cases (value n) = inr (n, refl)
Parsed-cases (bad e) = inl (e, refl)
