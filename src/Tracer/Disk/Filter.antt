-- ===== src/Tracer/Disk/Filter.antt =====
-- What a write to `filter` of `disk_utils` does, for every text, and the round trip with its read.
use mathlib.Core.Path.{subst}
use w_perf_archived.Base.{
  inr, All-init, All-append, ℕ, zero, suc, ◌<◌, ◌≤◌, ◌≡◌, ◌≢◌, refl, ap, ◌∙◌, Bool, true, false,
  none, some, List, [], ◌∷◌, ◌++◌, arith, length, All,
}
use w_perf_archived.Tracer.Text.{Bytes, newline, IsText, IsGraph, all_tokens, join}
use w_perf_archived.Tracer.Text.Tokens.{IsToken, all_tokens-IsText, all_tokens-join, join-IsGraph}
use w_perf_archived.Tracer.Kernel.{Kernel, empty_seq, ok, fail, einval}
use w_perf_archived.Tracer.Disk.{
  Disk, max_disk_num, max_dname_size, filter_done, dutils_filter_write, dutils_filter_read,
}
use w_perf_archived.Tracer.Disk.Valid.{Valid, Valid-reset, Valid-flags}
use w_perf_archived.Tracer.Disk.Names.{
  names, names_to, length-names_to, kept, IsName, put_all, put_all-rest, put_all-Valid,
  names-put_all, store_names-put_all, store_names-overflow, store_names-long,
}
use w_perf_archived.Tracer.Disk.Print.{dutils_filter_read-names}

abbrev pub AllShort : List Bytes → Type 0
AllShort = All (λ t. length t < max_dname_size)

-- The tokens of a write.
abbrev pub fields : Kernel → Bytes → List Bytes
fields K text = all_tokens (K.strstrip text)

-- The state in which the loop begins.
abbrev pub opened : Disk → Disk
opened d = record d { didx = 0; armed = false }

kept-IsName : (ts : List Bytes) → All IsText ts → AllShort ts → All IsName (kept ts)
unfolding kept
kept-IsName [] h k = tt
kept-IsName ([] ∷ ts) (h, hs) (k, ks) = kept-IsName ts hs ks
kept-IsName ((c ∷ t) ∷ ts) (h, hs) (k, ks) =
    (record { text = h; filled = omega arith; short = k }, kept-IsName ts hs ks)

filter_done-ok :
    (d : Disk)
    → d.armed ≡ false
    → filter_done (some (ok 0, d)) ≡ some (ok 0, record d { armed = d.denabled })
filter_done-ok d off = ground arith

names_to-armed : (d : Disk) (b : Bool) (n : ℕ) → names_to (record d { armed = b }) n ≡ names_to d n
unfolding names_to
names_to-armed d b zero = refl
names_to-armed d b (suc n) = rw (names_to-armed d b n)

-- `d'` is `d` after a write that stored the names `ts`.
pub record Written (d d' : Disk) (ts : List Bytes) : Type 0 where
  pub listed : names d' ≡ ts
  pub valid : Valid d'
  pub armed : d'.armed ≡ d.denabled
  pub enabled : d'.denabled ≡ d.denabled
  pub counts : d'.dutils ≡ d.dutils

module _ (K : Kernel) (text : Bytes) (d : Disk) where
  abbrev stored : Disk
  stored = put_all (kept (fields K text)) (opened d)

  written : Disk
  written = record stored { armed = stored.denabled }

  module _ (h : IsText text) (v : Valid d) (short : AllShort (fields K text)) where
    fields-IsName : All IsName (kept (fields K text))
    fields-IsName = kept-IsName _ (all_tokens-IsText _ (K.strips-text text h)) short

    opened-Valid : Valid (opened d)
    opened-Valid = Valid-reset d.dutils d.denabled v v.counters

    stored-rest :
        (stored.denabled ≡ d.denabled) × (stored.armed ≡ false) × (stored.dutils ≡ d.dutils)
    stored-rest = put_all-rest (kept (fields K text)) (opened d)

    stored-names :
        length (kept (fields K text)) ≤ max_disk_num → names stored ≡ kept (fields K text)
    unfolding names
    stored-names few = names-put_all (kept (fields K text)) opened-Valid fields-IsName (omega arith)

    written-Written :
        length (kept (fields K text)) ≤ max_disk_num → Written d written (kept (fields K text))
    unfolding written names
    written-Written few =
        let sv = put_all-Valid (kept (fields K text)) opened-Valid fields-IsName (omega arith) in
        record {
          listed = names_to-armed stored stored.denabled stored.didx ∙ stored-names few;
          valid = Valid-flags stored.dutils stored.denabled stored.denabled sv sv.counters (λ e. e);
          armed = stored-rest.0;
          enabled = stored-rest.0;
          counts = stored-rest.2;
        }

    -- From a valid state and a text without NUL, where memory is found for its copy: if none of its
    -- tokens is too long and there are no more of them that are not empty than slots, the write
    -- succeeds: exactly the tokens of the text that are not empty are watched afterwards, in their
    -- order; the invariant holds, the counters are not touched, and the probe is on exactly if the
    -- event is enabled.
    pub dutils_filter_write-ok :
        length (kept (fields K text)) ≤ max_disk_num
        → (d' : Disk) × (dutils_filter_write K true text d ≡ some (ok 0, d'))
          × Written d d' (kept (fields K text))
    unfolding dutils_filter_write written
    dutils_filter_write-ok few = (
      written,
      ap filter_done (store_names-put_all (fields K text) (opened d) short (omega arith))
          ∙ filter_done-ok stored stored-rest.1,
      written-Written few,
    )

    -- From a valid state and a text without NUL, where memory is found for its copy: with more
    -- names than slots, and none too long, the write runs past the array.
    pub dutils_filter_write-overflow :
        max_disk_num < length (kept (fields K text)) → dutils_filter_write K true text d ≡ none
    unfolding dutils_filter_write
    dutils_filter_write-overflow many =
        ap filter_done
          (store_names-overflow (fields K text) (opened d) short (omega arith) (omega arith))

  -- From a valid state and a text without NUL, where the tokens before the first one that is too
  -- long fit the slots: that token ends the write with -EINVAL; the names before it replace the old
  -- ones, the counters stay, and the probe stays off, also where the event is enabled.
  pub dutils_filter_write-long :
      (ts : List Bytes) (t : Bytes) (us : List Bytes)
      → fields K text ≡ ts ++ t ∷ us
      → IsText text
      → Valid d
      → AllShort ts
      → length (kept ts) ≤ max_disk_num
      → max_dname_size ≤ length t
      → (d' : Disk) × (dutils_filter_write K true text d ≡ some (fail einval, d'))
        × (names d' ≡ kept ts)
        × (d'.armed ≡ false)
        × (d'.denabled ≡ d.denabled)
        × (d'.dutils ≡ d.dutils)
  unfolding dutils_filter_write names
  dutils_filter_write-long ts t us e h v short few long =
      let texts =
        All-init IsText ts _ (subst (All IsText) e (all_tokens-IsText _ (K.strips-text text h))) in
      let (enabled, off, counts) = put_all-rest (kept ts) (opened d) in
      (
        put_all (kept ts) (opened d),
        rw e (ap filter_done (store_names-long ts t us (opened d) short (omega arith) long)),
        names-put_all (kept ts) (Valid-reset d.dutils d.denabled v v.counters)
            (kept-IsName ts texts short) (omega arith),
        off,
        enabled,
        counts,
      )

kept-tokens : (ts : List Bytes) → All IsToken ts → kept ts ≡ ts
unfolding kept
kept-tokens [] h = refl
kept-tokens ([] ∷ ts) (h, hs) = absurd (omega (arith, h.filled))
kept-tokens ((c ∷ t) ∷ ts) (h, hs) = ap (λ l. (c ∷ t) ∷ l) (kept-tokens ts hs)

IsGraph-IsText : (t : Bytes) → All IsGraph t → IsText t
IsGraph-IsText [] h = tt
IsGraph-IsText (c ∷ t) (h, hs) = ((λ e. omega arith), IsGraph-IsText t hs)

module _ (K : Kernel) (t : Bytes) (ts : List Bytes) (tokens : All IsToken (t ∷ ts)) where
  unfoldable pub line : Bytes
  line = join (t ∷ ts) ++ newline ∷ []

  pub line-IsText : IsText line
  unfolding line
  line-IsText =
      All-append (λ c. c ≢ 0) (join (t ∷ ts)) (newline ∷ [])
        (IsGraph-IsText _ (join-IsGraph (t ∷ ts) tokens)) ((λ e. omega arith), tt)

  fields-line : fields K line ≡ t ∷ ts
  unfolding line
  fields-line =
      ap all_tokens (
        K.strips _ (newline ∷ []) (join-IsGraph (t ∷ ts) tokens)
          (inr (omega arith, omega arith), tt))
      ∙ all_tokens-join t ts tokens

-- From a valid state, at least one and at most 20 names of at most 19 bytes that a write of a list
-- stores are printed back by a read, as they were written, on one line: `echo sda,sdb > filter; cat
-- filter`.
pub dutils_filter_read-write :
    (K : Kernel) (t : Bytes) (ts : List Bytes) (d : Disk)
    → Valid d
    → All IsToken (t ∷ ts)
    → AllShort (t ∷ ts)
    → length (t ∷ ts) ≤ max_disk_num
    → (d' : Disk) × (dutils_filter_write K true (join (t ∷ ts) ++ newline ∷ []) d ≡ some (ok 0, d'))
      × (dutils_filter_read K d' empty_seq
          ≡ record { text = join (t ∷ ts) ++ newline ∷ []; full = false })
unfolding line names
dutils_filter_read-write K t ts d v tokens short few =
    let e = fields-line K t ts tokens in
    let kept_all = ap kept e ∙ kept-tokens (t ∷ ts) tokens in
    let (d', done, w) =
      dutils_filter_write-ok K (line K t ts tokens) d (line-IsText K t ts tokens) v (rw e short)
        (rw kept_all few) in
    let used = ap length (w.listed ∙ kept_all) in
    (
      d',
      done,
      dutils_filter_read-names K d' w.valid (omega (arith, used, length-names_to d' d'.didx))
          ∙ ap (λ l. record { text = join l ++ newline ∷ []; full = false }) (w.listed ∙ kept_all),
    )
