-- ===== src/Tracer/Disk/Refine/Filter.antt =====
-- The writes to `enable` and `filter` do what the specification says.
use w_perf_archived.Base.{
  ℕ, zero, suc, ◌+◌, ◌%◌, ◌≤◌, ◌≡◌, refl, ap, ap₂, ◌∙◌, Bool, true, false, Option, none, some, List,
  [], ◌∷◌, ◌++◌, All, ltb, leb, ◌==◌, if◌then◌else◌, length, get_or, set, ltb→le, arith, Bool-cases,
  inl, inr,
}
use w_perf_archived.Tracer.Text.{Bytes, cstr, IsText, all_tokens}
use w_perf_archived.Tracer.Text.Tokens.{all_tokens-IsText}
use w_perf_archived.Tracer.Kernel.{Kernel, Ret, ok, fail, einval}
use w_perf_archived.Tracer.Disk.{
  Disk, is_empty, max_disk_num, max_dname_size, clear, put_name, store_names, filter_done,
  dutils_filter_write,
}
use w_perf_archived.Tracer.Disk.Valid.{Valid, Valid-reset, length_of_filled}
use w_perf_archived.Tracer.Disk.Names.{
  names, names_to, length-names_to, IsName, put_all, put_all-rest, names-put_all, put_name-didx,
}
use w_perf_archived.Tracer.Disk.Print.{rearm}
use w_perf_archived.Tracer.Disk.Calls.{enable, filter}
use w_perf_archived.Tracer.Disk.Spec.{
  Watch, returned, zero_first, usable, has_long, filter_spec, call_spec,
}
use w_perf_archived.Tracer.Disk.Refine.{watch_of, reply_of, answer, watched}

clear-cons : (n c : ℕ) (cs : List ℕ) → clear (suc n) (c ∷ cs) ≡ 0 ∷ clear n cs
unfolding clear
clear-cons zero c cs = refl
clear-cons (suc n) c cs = ap (λ l. set l (suc n) 0) (clear-cons n c cs) ∙ refl

clear-nil : (n : ℕ) → clear n [] ≡ []
unfolding clear
clear-nil zero = refl
clear-nil (suc n) = ap (λ l. set l n 0) (clear-nil n)

pub clear-zero_first : (n : ℕ) (cs : List ℕ) → clear n cs ≡ zero_first n cs
clear-zero_first zero cs = unfold clear in refl
clear-zero_first (suc n) [] = clear-nil (suc n)
clear-zero_first (suc n) (c ∷ cs) = clear-cons n c cs ∙ ap (λ l. 0 ∷ l) (clear-zero_first n cs)

pub names_to-dnames : (d e : Disk) → d.dnames ≡ e.dnames → (n : ℕ) → names_to d n ≡ names_to e n
unfolding names_to
names_to-dnames d e h zero = refl
names_to-dnames d e h (suc n) =
    ap₂ (λ l m. l ++ cstr (get_or m n []) ∷ []) (names_to-dnames d e h n) h

pub enable-watched :
    (K : Kernel) (val : ℕ) (d : Disk)
    → watched (answer K (enable val) d) ≡ call_spec K (enable val) (watch_of d)
unfolding answer names
enable-watched K val d = elim (Bool-cases (val % 256 == 0)) [
  | inl z ↦
      rw (z, clear-zero_first d.didx d.dutils, length-names_to d d.didx) (unfold names_to in refl)
  | inr z ↦ rw z (
      ap
        (λ l.
          some
            (returned (ok 0), record (watch_of d) { listed = l; enabled = true; watching = true }))
        (names_to-dnames (record d { denabled = true; armed = true }) d refl d.didx))
]

usable-IsName : (ts : List Bytes) → All IsText ts → All IsName (usable ts)
usable-IsName [] h = tt
usable-IsName (t ∷ ts) (h, hs) = elim (Bool-cases (leb max_dname_size (length t))) [
  | inl long ↦ rw long tt
  | inr short ↦ elim (Bool-cases (is_empty t)) [
    | inl e ↦ rw (short, e) (usable-IsName ts hs)
    | inr e ↦
        rw (short, e)
          (
            record { text = h; filled = length_of_filled t e; short = ground (arith, short) },
            usable-IsName ts hs,
          )
  ]
]

-- What the loop makes of its tokens.
abbrev stored : List Bytes → Disk → Option (Ret × Disk)
stored ts d =
    if ltb max_disk_num (d.didx + length (usable ts))
    then none
    else some (if has_long ts then fail einval else ok 0, put_all (usable ts) d)

store_names-stored :
    (ts : List Bytes) (d : Disk) → d.didx ≤ max_disk_num → store_names ts d ≡ stored ts d
unfolding store_names put_all
store_names-stored [] d h = ground arith
store_names-stored ([] ∷ ts) d h = store_names-stored ts d h
store_names-stored ((c ∷ t) ∷ ts) d h =
    ground (arith, store_names-stored ts (put_name (c ∷ t) d), put_name-didx (c ∷ t) d)

plus_zero : (n : ℕ) → 0 + n ≡ n
plus_zero n = omega arith

abbrev pub watch : List Bytes → List ℕ → Bool → Bool → Watch
watch l c e on = record { listed = l; counts = c; enabled = e; watching = on }

pub watch-path :
    {l m : List Bytes} {c e : List ℕ} {a b : Bool} (on : Bool)
    → l ≡ m
    → c ≡ e
    → a ≡ b
    → watch l c a on ≡ watch m e b on
watch-path on p q r = rw (p, q, r) refl

module _ (d : Disk) (v : Valid d) (fs : List Bytes) (texts : All IsText fs) where
  -- The state behind the loop, and behind the handler where it is the last.
  abbrev after : Bool → Disk
  after on = record (put_all (usable fs) (record d { didx = 0; armed = false })) { armed = on }

  watch_of-after :
      (on : Bool)
      → length (usable fs) ≤ max_disk_num
      → watch_of (after on) ≡ record (watch_of d) { listed = usable fs; watching = on }
  unfolding names
  watch_of-after on few =
      let e = record d { didx = 0; armed = false } in
      let (enabled, armed, counts) = put_all-rest (usable fs) e in
      let fresh =
        names-put_all (usable fs) (Valid-reset d.dutils d.denabled v v.counters)
          (usable-IsName fs texts) (omega arith) in
      let p = put_all (usable fs) e in
      let listed : names (after on) ≡ usable fs =
        names_to-dnames (after on) p refl p.didx ∙ fresh ∙ unfold names_to in refl in
      watch-path on listed counts enabled

  stored-opened : stored fs (record d { didx = 0; armed = false }) ≡ (
      if ltb max_disk_num (length (usable fs))
      then none
      else some (if has_long fs then fail einval else ok 0, after false))
  stored-opened =
      let e = record d { didx = 0; armed = false } in
      let p = put_all (usable fs) e in
      ap₂
        (λ n q.
          if ltb max_disk_num n then none else some (if has_long fs then fail einval else ok 0, q))
        (plus_zero (length (usable fs)))
        (ap (λ b. record p { armed = b }) (put_all-rest (usable fs) e).1)

  filter_done-watched :
      watched (reply_of (filter_done (store_names fs (record d { didx = 0; armed = false }))))
      ≡ filter_spec fs (watch_of d)
  filter_done-watched =
      rw (store_names-stored fs (record d { didx = 0; armed = false }) (omega arith), stored-opened)
        (elim (Bool-cases (ltb max_disk_num (length (usable fs)))) [
          | inl over ↦ rw over refl
          | inr few ↦ elim (Bool-cases (has_long fs)) [
            | inl long ↦
                rw (few, long)
                  (ap (λ w. some (returned (fail einval), w))
                    (watch_of-after false (ltb→le _ _ few)))
            | inr short ↦
                rw (few, short)
                  (ap (λ w. some (returned (ok 0), w))
                    (let p = put_all (usable fs) (record d { didx = 0; armed = false }) in
                      ap watch_of (rearm p p.denabled)
                      ∙ watch_of-after p.denabled (ltb→le _ _ few)
                      ∙ ap (watch (usable fs) d.dutils d.denabled)
                          (put_all-rest (usable fs) (record d { didx = 0; armed = false })).0))
          ]
        ])

pub filter-watched :
    (K : Kernel) (dup : Bool) (text : Bytes) (d : Disk)
    → IsText text
    → Valid d
    → watched (answer K (filter dup text) d) ≡ call_spec K (filter dup text) (watch_of d)
unfolding answer dutils_filter_write
filter-watched K false text d h v = refl
filter-watched K true text d h v =
    filter_done-watched d v (all_tokens (K.strstrip text))
      (all_tokens-IsText _ (K.strips-text text h))
