-- ===== src/Tracer/Files/Laws.antt =====
-- The file operations over any `ev_ops`, and over those of the two events.
use w_perf_archived.Base.{
  false, ℕ, zero, suc, ◌+◌, ◌<◌, ◌≤◌, ◌≡◌, refl, ap, ◌∙◌, true, false, Option, none, some, [], ◌∷◌,
  arith, ◌==◌, if◌then◌else◌, length, take, le→leb, take-all,
}
use w_perf_archived.Tracer.Text.{Bytes, newline, cstr}
use w_perf_archived.Tracer.Kernel.{
  Kernel, Errno, Seq, empty_seq, value, Ret, ok, fail, enomem, einval, efault,
}
use w_perf_archived.Tracer.Disk
use w_perf_archived.Tracer.Disk.{Disk, max_disk_num, max_dname_size}
use w_perf_archived.Tracer.Tx
use w_perf_archived.Tracer.Tx.{Tx, enable_tx_stat_probes, disable_tx_stat_probes}
use w_perf_archived.Tracer.Files.{
  EnableOps, TextOps, Luck, Reply, UserCopy, deliver, read_generic, enable_read_generic, or_count,
  enable_write_generic,
}
use w_perf_archived.Tracer.Files.Ops.{ev_dutils_enable, ev_tx_stats_enable}

-- What the file operations of `enable` rely on: a flag that is written is read back.
pub record EnableLaws {S : Type 0} (ops : EnableOps S) : Type 0 where
  pub done : (val : ℕ) (st : S) → (ops.put val st).0 ≡ ok 0
  pub kept : (val : ℕ) (st : S) → val ≤ 1 → ops.get (ops.put val st).1 ≡ val

pub dutils-EnableLaws : EnableLaws ev_dutils_enable
dutils-EnableLaws = record {
  done = λ val st. unfold Disk.dutils_enable_write in ground arith;
  kept = λ val st h. unfold Disk.dutils_enable_write Disk.dutils_enable_read in ground arith;
}

pub tx_stats-EnableLaws : EnableLaws ev_tx_stats_enable
tx_stats-EnableLaws = record {
  done = λ val st. unfold Tx.tx_stats_enable_write in ground arith;
  kept = λ val st h. unfold Tx.tx_stats_enable_write Tx.tx_stats_enable_read in ground arith;
}

digit_of : (val : ℕ) → val ≤ 1 → (if val == 0 then b'0' else b'1') ≡ b'0' + val
digit_of val h = ground arith

-- A read from the start that asks for the whole text gets it.
pub simple_read-all :
    (U : UserCopy) (n : ℕ) (buf : Bytes)
    → length buf ≤ n
    → U.simple_read n 0 buf ≡ record { ret = ok (length buf); ppos = length buf; out = buf }
simple_read-all U n buf h =
    U.reads n 0 buf
    ∙ ap (λ out. record { ret = ok (length out); ppos = 0 + length out; out = out })
        (take-all n buf h)
    ∙ ap (λ k. record { ret = ok (length buf); ppos = k; out = buf }) (omega arith)

module _ {S : Type 0} {ops : EnableOps S} (laws : EnableLaws ops) (U : UserCopy) where
  read_flag :
      (n : ℕ) (st : S) (val : ℕ)
      → 2 ≤ n
      → val ≤ 1
      → ops.get st ≡ val
      → enable_read_generic U ops n 0 st
        ≡ record { ret = ok 2; ppos = 2; out = (b'0' + val) ∷ newline ∷ [] }
  unfolding enable_read_generic
  read_flag n st val h k e =
      ap (λ (c : ℕ). U.simple_read n 0 (c ∷ newline ∷ []))
        (ap (λ (g : ℕ). if g == 0 then b'0' else b'1') e ∙ digit_of val k)
      ∙ simple_read-all U n ((b'0' + val) ∷ newline ∷ []) h

  -- Over the flag of an event that takes a number as its handlers do, 0 or 1 written to `enable` is
  -- accepted whole, and is what a read then gives.
  pub enable_read-write :
      (cnt ppos : ℕ) (st : S) (val n : ℕ)
      → val ≤ 1
      → 2 ≤ n
      → let w = enable_write_generic (some ops) (value val) cnt ppos st in
        (w.0 ≡ ok cnt)
        × (w.1 ≡ ppos + cnt)
        × (enable_read_generic U ops n 0 w.2
            ≡ record { ret = ok 2; ppos = 2; out = (b'0' + val) ∷ newline ∷ [] })
  unfolding enable_write_generic
  enable_read-write cnt ppos st val n small room = rw (le→leb val 1 small) (
    ap (or_count cnt) (laws.done val st),
    refl,
    read_flag n (ops.put val st).1 val room small (laws.kept val st small),
  )

take-filled : (n : ℕ) (s : Bytes) → 0 < n → 0 < length s → 0 < length (take n s)
take-filled zero s h k = elim h [ ]
take-filled (suc n) [] h k = elim k [ ]
take-filled (suc n) (c ∷ s) h k = omega arith

-- The reads of one open file.
module _ {S : Type 0} (U : UserCopy) (ops : TextOps S) where
  -- A read from the start of a file that prints a text that is not empty, asking for at least one
  -- byte, gives the first bytes, as many as are asked for, and the next read of the open file gives
  -- nothing, also where bytes of the text are left.
  pub read_generic-short :
      (cnt n : ℕ) (st st' : S) (s : Seq)
      → ops.print st empty_seq ≡ some (s, st')
      → 0 < cnt
      → 0 < length s.text
      → (r : Reply) × (read_generic U true (some ops) cnt 0 st ≡ some (r, st'))
        × (r.out ≡ take cnt s.text)
        × (read_generic U true (some ops) n r.ppos st'
            ≡ some (record { ret = ok 0; ppos = r.ppos; out = [] }, st'))
  unfolding read_generic
  read_generic-short cnt n st st' s e h k =
      let r = U.simple_read cnt 0 s.text in
      let q = U.reads cnt 0 s.text in
      let p : (r.ppos == 0) ≡ false =
        ground (arith, ap (λ (x : Reply). x.ppos) q, take-filled cnt s.text h k) in
      (r, ap (deliver U cnt 0) e, ap (λ (x : Reply). x.out) q, rw p)

-- The end of a write, by its cause: the result, the position, and the state of the event. `text` is
-- what the handler of the file is given.
pub data Written {S : Type 0} (K : Kernel) (luck : Luck) (ops : TextOps S) (text : Bytes)
    (cnt ppos : ℕ) (st : S) : Option (Ret × ℕ × S) → Type 0 where
  too_long : K.page_size ≤ cnt → Written K luck ops text cnt ppos st (some (fail einval, ppos, st))
  no_page :
      cnt < K.page_size
      → luck.page ≡ false
      → Written K luck ops text cnt ppos st (some (fail enomem, ppos, st))
  no_copy :
      cnt < K.page_size
      → luck.page ≡ true
      → luck.copy ≡ false
      → Written K luck ops text cnt ppos st (some (fail efault, ppos, st))
  faults :
      cnt < K.page_size
      → luck.page ≡ true
      → luck.copy ≡ true
      → ops.store luck.dup text st ≡ none
      → Written K luck ops text cnt ppos st none
  refused :
      {e : Errno} {st' : S}
      → cnt < K.page_size
      → luck.page ≡ true
      → luck.copy ≡ true
      → ops.store luck.dup text st ≡ some (fail e, st')
      → Written K luck ops text cnt ppos st (some (fail einval, ppos, st'))
  taken :
      {n : ℕ} {st' : S}
      → cnt < K.page_size
      → luck.page ≡ true
      → luck.copy ≡ true
      → ops.store luck.dup text st ≡ some (ok n, st')
      → Written K luck ops text cnt ppos st (some (ok cnt, ppos + cnt, st'))

module _ {S : Type 0} (K : Kernel) (luck : Luck) (ops : TextOps S) (ubuf : Bytes) (cnt ppos : ℕ)
    (st : S) where
  abbrev Ends : Type 0
  Ends = (o : Option (Ret × ℕ × S)) × Written K luck ops (cstr (take cnt ubuf)) cnt ppos st o
