-- ===== src/Tracer/Disk/Names.antt =====
-- The list of names that the slots in use hold, and what the loop of `dutils_filter_write` makes
-- of it.
use mathlib.Core.Path.{ap₂, ◌≡⟨◌⟩◌, ◌∎}
use w_perf_archived.Base.{
  ℕ, zero, suc, ◌+◌, ◌<◌, ◌≤◌, ◌≡◌, refl, ap, sym, ◌∙◌, none, some, List, [], ◌∷◌, ◌++◌, arith,
  if◌then◌else◌, length, All, length-append, append_assoc, append-nil,
}
use w_perf_archived.Tracer.Text.{Bytes, cstr, IsText}
use w_perf_archived.Tracer.Kernel.{ok, fail, einval}
use w_perf_archived.Tracer.Disk.{
  Disk, max_disk_num, max_dname_size, dname, is_empty, put_name, store_names,
}
use w_perf_archived.Tracer.Disk.Valid.{Valid, put_name-other, put_name_lem, put_name-Valid}

-- The strings in the first `n` slots.
unfoldable pub names_to : Disk → ℕ → List Bytes
names_to d zero = []
names_to d (suc n) = names_to d n ++ cstr (dname d n) ∷ []

unfoldable pub names : Disk → List Bytes
unfolding names_to
names d = names_to d d.didx

pub length-names_to : (d : Disk) (n : ℕ) → length (names_to d n) ≡ n
unfolding names_to
length-names_to d zero = refl
length-names_to d (suc n) =
    omega (arith, length-append (names_to d n) (cstr (dname d n) ∷ []), length-names_to d n)

-- The tokens that the loop does not skip.
unfoldable pub kept : List Bytes → List Bytes
kept [] = []
kept (t ∷ ts) = if is_empty t then kept ts else t ∷ kept ts

-- A token that the loop writes.
pub record IsName (t : Bytes) : Type 0 where
  pub text : IsText t
  pub filled : 0 < length t
  pub short : length t < max_dname_size

-- The writes of one loop, one after another.
unfoldable pub put_all : List Bytes → Disk → Disk
put_all [] d = d
put_all (t ∷ ts) d = put_all ts (put_name t d)

names_to-put_name :
    {d : Disk} (v : Valid d) (t : Bytes)
    → IsText t
    → (n : ℕ) → n ≤ d.didx
    → names_to (put_name t d) n ≡ names_to d n
unfolding names_to
names_to-put_name v t text zero h = refl
names_to-put_name v t text (suc n) h =
    rw (names_to-put_name v t text n (omega arith), put_name-other v t text n (λ e. omega arith))

pub put_name-didx : (t : Bytes) (d : Disk) → (put_name t d).didx ≡ suc d.didx
unfolding put_name
put_name-didx t d = omega arith

-- One more write adds its token to the names.
names-put_name :
    {d : Disk} (v : Valid d) (t : Bytes)
    → IsText t
    → d.didx < max_disk_num
    → names (put_name t d) ≡ names d ++ t ∷ []
unfolding names
names-put_name {d} v t text room =
    names (put_name t d)
    ≡⟨ ap (names_to (put_name t d)) (put_name-didx t d) ⟩ names_to (put_name t d) (suc d.didx)
    ≡⟨ ap₂ (λ l m. l ++ m ∷ []) (names_to-put_name v t text d.didx (omega arith))
        (put_name_lem v t text room) ⟩
      names d ++ t ∷ [] ∎

-- What the flags and the counters are is not changed by the loop.
pub put_all-rest :
    (ts : List Bytes) (d : Disk)
    → ((put_all ts d).denabled ≡ d.denabled)
      × ((put_all ts d).armed ≡ d.armed)
      × ((put_all ts d).dutils ≡ d.dutils)
unfolding put_all put_name
put_all-rest [] d = (refl, refl, refl)
put_all-rest (t ∷ ts) d = put_all-rest ts (put_name t d)

module _ {d : Disk} (v : Valid d) {t : Bytes} (h : IsName t) (room : d.didx < max_disk_num) where
  put_name-IsName : Valid (put_name t d)
  put_name-IsName = put_name-Valid v t h.text h.filled (omega (arith, h.short)) room

pub put_all-Valid :
    {d : Disk} (ts : List Bytes)
    → Valid d
    → All IsName ts
    → d.didx + length ts ≤ max_disk_num
    → Valid (put_all ts d)
unfolding put_all
put_all-Valid [] v h room = v
put_all-Valid {d} (t ∷ ts) v (h, hs) room =
    put_all-Valid {d = put_name t d} ts (put_name-IsName v h (omega arith)) hs
      (omega (arith, put_name-didx t d))

pub names-put_all :
    {d : Disk} (ts : List Bytes)
    → Valid d
    → All IsName ts
    → d.didx + length ts ≤ max_disk_num
    → names (put_all ts d) ≡ names d ++ ts
unfolding put_all
names-put_all [] v h room = sym (append-nil _)
names-put_all {d} (t ∷ ts) v (h, hs) room =
    names-put_all {d = put_name t d} ts (put_name-IsName v h (omega arith)) hs
      (omega (arith, put_name-didx t d))
    ∙ ap (λ l. l ++ ts) (names-put_name v t h.text (omega arith))
    ∙ append_assoc (names d) (t ∷ []) ts

-- No token is too long, and the kept ones fit: all of them are written.
pub store_names-put_all :
    (ts : List Bytes) (d : Disk)
    → All (λ t. length t < max_dname_size) ts
    → d.didx + length (kept ts) ≤ max_disk_num
    → store_names ts d ≡ some (ok 0, put_all (kept ts) d)
unfolding store_names kept put_all
store_names-put_all [] d h room = refl
store_names-put_all ([] ∷ ts) d (h, hs) room = store_names-put_all ts d hs room
store_names-put_all ((c ∷ t) ∷ ts) d (h, hs) room =
    ground (arith, store_names-put_all ts (put_name (c ∷ t) d) hs, put_name-didx (c ∷ t) d)

-- One token more than there are slots is written outside of the array.
pub store_names-overflow :
    (ts : List Bytes) (d : Disk)
    → All (λ t. length t < max_dname_size) ts
    → max_disk_num < d.didx + length (kept ts)
    → d.didx ≤ max_disk_num
    → store_names ts d ≡ none
unfolding store_names kept put_all
store_names-overflow [] d h over few = absurd (omega arith)
store_names-overflow ([] ∷ ts) d (h, hs) over few = store_names-overflow ts d hs over few
store_names-overflow ((c ∷ t) ∷ ts) d (h, hs) over few =
    ground (arith, store_names-overflow ts (put_name (c ∷ t) d) hs, put_name-didx (c ∷ t) d)

-- The first token that is too long ends the loop; the names before it stay.
pub store_names-long :
    (ts : List Bytes) (t : Bytes) (us : List Bytes) (d : Disk)
    → All (λ s. length s < max_dname_size) ts
    → d.didx + length (kept ts) ≤ max_disk_num
    → max_dname_size ≤ length t
    → store_names (ts ++ t ∷ us) d ≡ some (fail einval, put_all (kept ts) d)
unfolding store_names kept put_all
store_names-long [] [] us d h room long = absurd (omega arith)
store_names-long [] (c ∷ t) us d h room long = ground arith
store_names-long ([] ∷ ts) t us d (h, hs) room long = store_names-long ts t us d hs room long
store_names-long ((c ∷ s) ∷ ts) t us d (h, hs) room long =
    ground (arith, store_names-long ts t us (put_name (c ∷ s) d) hs, put_name-didx (c ∷ s) d)
