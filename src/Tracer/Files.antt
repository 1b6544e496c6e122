-- ===== src/Tracer/Files.antt =====
-- The file operations that the event files share: `enable_fops_generic`, `filter_fops_generic` and
-- `output_fops_generic` of module/trace_wperf_events.c, over the `ev_ops` of a file.
-- A handler that faults has the result `none`. Each handler of an event is one step: `event_mutex` is
-- held around those of `filter` and `output`. `enable_write_generic` gives the mutex up before it
-- calls the handler of `enable`; that two handlers then overlap is not modelled.
pub mod Ops
pub mod Laws
pub mod Session
use w_perf_archived.Base.{
  ℕ, ◌+◌, ◌≡◌, Bool, true, false, Option, none, some, List, [], ◌∷◌, leb, ◌==◌, if◌then◌else◌,
  length, take, drop,
}
use w_perf_archived.Tracer.Text.{Bytes, newline, cstr}
use w_perf_archived.Tracer.Kernel.{
  Kernel, Seq, empty_seq, Parsed, value, bad, Ret, ok, fail, enomem, einval, efault, eperm, enodev,
}

-- `struct ev_ops` of an `enable` file: `read` tells the flag, `write` takes the number.
pub record EnableOps (S : Type 0) : Type 0 where
  pub get : S → ℕ
  pub put : ℕ → S → Ret × S

-- `struct ev_ops` of a `filter` or an `output` file; the Boolean tells whether memory is found.
pub record TextOps (S : Type 0) : Type 0 where
  pub print : S → Seq → Option (Seq × S)
  pub store : Bool → Bytes → S → Option (Ret × S)

-- The allocations of one write, and the copy from the user's memory: whether each succeeds.
pub record Luck : Type 0 where
  pub page : Bool
  pub copy : Bool
  pub dup : Bool

-- What a read of a file gives back: the result, the new position, and the bytes for the user.
pub record Reply : Type 0 where
  pub ret : Ret
  pub ppos : ℕ
  pub out : Bytes

-- `simple_read_from_buffer(ubuf, cnt, ppos, buf, len)` where the user's memory can be written: the
-- bytes from `*ppos` on, as many as are asked for and are there, and the position behind them.
pub record UserCopy : Type 0 where
  pub simple_read : ℕ → ℕ → Bytes → Reply
  pub reads :
      (cnt ppos : ℕ) (buf : Bytes)
      → let out = take cnt (drop ppos buf) in
        simple_read cnt ppos buf
        ≡ record { ret = ok (length out); ppos = ppos + length out; out = out }

module _ {S : Type 0} (U : UserCopy) where
  abbrev pub deliver : ℕ → ℕ → Option (Seq × S) → Option (Reply × S)
  deliver cnt ppos none = none
  deliver cnt ppos (some (s, st)) = some (U.simple_read cnt ppos s.text, st)

  abbrev pub print_file : Option (TextOps S) → ℕ → ℕ → S → Option (Reply × S)
  print_file none cnt ppos st = some (record { ret = fail enodev; ppos = ppos; out = [] }, st)
  print_file (some ops) cnt ppos st = deliver cnt ppos (ops.print st empty_seq)

  -- `filter_read_generic` and `output_read_generic`. `mem` tells whether `kmalloc` finds memory,
  -- `ef` is the file's `i_private`.
  unfoldable pub read_generic : Bool → Option (TextOps S) → ℕ → ℕ → S → Option (Reply × S)
  read_generic mem ef cnt ppos st =
      if ppos == 0
      then (if mem
          then print_file ef cnt ppos st
          else some (record { ret = fail enomem; ppos = ppos; out = [] }, st))
      else some (record { ret = ok 0; ppos = ppos; out = [] }, st)

  -- `set_to_char[set]` and a newline.
  unfoldable pub enable_read_generic : EnableOps S → ℕ → ℕ → S → Reply
  enable_read_generic ops cnt ppos st =
      U.simple_read cnt ppos ((if ops.get st == 0 then b'0' else b'1') ∷ newline ∷ [])

-- `return ret ? ret : cnt;`
abbrev pub or_count : ℕ → Ret → Ret
or_count cnt (fail e) = fail e
or_count cnt (ok n) = if n == 0 then ok cnt else ok n

module _ {S : Type 0} where
  abbrev pub put_flag : Option (EnableOps S) → ℕ → ℕ → ℕ → S → Ret × ℕ × S
  put_flag none val cnt ppos st = (fail enodev, ppos + cnt, st)
  put_flag (some ops) val cnt ppos st =
      let (r, st') = ops.put val st in (or_count cnt r, ppos + cnt, st')

  -- `parsed` is the result of `kstrtoul_from_user(ubuf, cnt, 10, &val)`. The result, the new
  -- position, and the state.
  unfoldable pub enable_write_generic : Option (EnableOps S) → Parsed → ℕ → ℕ → S → Ret × ℕ × S
  enable_write_generic ef (bad e) cnt ppos st = (fail e, ppos, st)
  enable_write_generic ef (value val) cnt ppos st =
      if leb val 1 then put_flag ef val cnt ppos st else (fail einval, ppos, st)

  abbrev pub store_done : ℕ → ℕ → Option (Ret × S) → Option (Ret × ℕ × S)
  store_done cnt ppos none = none
  store_done cnt ppos (some (fail e, st)) = some (fail einval, ppos, st)
  store_done cnt ppos (some (ok n, st)) = some (ok cnt, ppos + cnt, st)

  -- `ubuf` is the user's memory; the handler sees the string that its first `cnt` bytes hold.
  unfoldable pub filter_write_generic :
      Kernel → Luck → TextOps S → Bytes → ℕ → ℕ → S → Option (Ret × ℕ × S)
  filter_write_generic K luck ops ubuf cnt ppos st =
      if leb K.page_size cnt
      then some (fail einval, ppos, st)
      else if luck.page
      then (if luck.copy
          then store_done cnt ppos (ops.store luck.dup (cstr (take cnt ubuf)) st)
          else some (fail efault, ppos, st))
      else some (fail enomem, ppos, st)

  unfoldable pub output_write_generic : ℕ → S → Ret × ℕ × S
  output_write_generic ppos st = (fail eperm, ppos, st)
