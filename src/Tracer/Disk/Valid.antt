-- ===== src/Tracer/Disk/Valid.antt =====
-- The invariant of the `disk_utils` data, and that every handler keeps it.
use native.Mathlib.Decide.{ℕ_discrete}
use w_perf_archived.Base.{
  ◌∙◌, ◌%◌, ◌&&◌, not, length-replicate, Option, get_or-replicate, ℕ, zero, suc, ◌+◌, ◌<◌, ◌≤◌, ◌≡◌,
  ◌≢◌, refl, ap, Bool, true, false, none, some, List, [], ◌∷◌, arith, inl, inr, ltb, ◌==◌,
  if◌then◌else◌, length, replicate, All, Bool-cases, length-set, get_or-set_self, get_or-set_ne,
  ltb→le, ltb→lt,
}
use w_perf_archived.Tracer.Text.{Bytes, cstr, strncpy, IsText, all_tokens}
use w_perf_archived.Tracer.Text.Laws.{length-strncpy, cstr-strncpy}
use w_perf_archived.Tracer.Text.Tokens.{all_tokens-IsText}
use w_perf_archived.Tracer.Kernel.{Kernel, Seq, Ret, ok, fail}
use w_perf_archived.Tracer.Disk.{
  Disk, Part, init, max_disk_num, max_dname_size, dname, credit, on_part_round_stats_ent, clear,
  dutils_enable_write, is_empty, put_name, store_names, filter_done, dutils_filter_write,
  dutils_output_read,
}

-- A slot in use holds a name with a NUL behind it, inside the slot.
abbrev pub Holds : Bytes → Type 0
Holds slot = (0 < length (cstr slot)) × (length (cstr slot) < max_dname_size)

pub record Valid (d : Disk) : Type 0 where
  pub slots : length d.dnames ≡ max_disk_num
  pub sizes : (i : ℕ) → i < max_disk_num → length (dname d i) ≡ max_dname_size
  pub counters : length d.dutils ≡ max_disk_num
  pub few : d.didx ≤ max_disk_num
  pub named : (i : ℕ) → i < d.didx → Holds (dname d i)
  pub gated : d.armed ≡ true → d.denabled ≡ true

-- A change of the counters and the flags alone.
pub Valid-flags :
    {d : Disk} (counts : List ℕ) (enabled on : Bool)
    → Valid d
    → length counts ≡ max_disk_num
    → (on ≡ true → enabled ≡ true)
    → Valid (record d { dutils = counts; denabled = enabled; armed = on })
Valid-flags counts enabled on v h g = record {
  slots = v.slots;
  sizes = v.sizes;
  counters = h;
  few = v.few;
  named = v.named;
  gated = g;
}

pub Valid-reset :
    {d : Disk} (counts : List ℕ) (enabled : Bool)
    → Valid d
    → length counts ≡ max_disk_num
    → Valid (record d { dutils = counts; denabled = enabled; armed = false; didx = 0 })
Valid-reset counts enabled v h = record {
  slots = v.slots;
  sizes = v.sizes;
  counters = h;
  few = omega arith;
  named = λ i p. absurd (omega arith);
  gated = λ e. cc;
}

pub Valid-if :
    {d e : Disk} (b : Bool)
    → (b ≡ true → Valid d)
    → (b ≡ false → Valid e)
    → Valid (if b then d else e)
Valid-if true v w = v refl
Valid-if false v w = w refl

pub length-clear : (n : ℕ) (counts : List ℕ) → length (clear n counts) ≡ length counts
unfolding clear
length-clear zero counts = refl
length-clear (suc n) counts = rw length-set (length-clear n counts)

module _ {d : Disk} (v : Valid d) (t : Bytes) (text : IsText t) where
  open v use {slots, sizes, named}

  put_name-same :
      d.didx < max_disk_num
      → dname (put_name t d) d.didx ≡ strncpy (dname d d.didx) t (length t + 1)
  unfolding put_name
  put_name-same h = get_or-set_self d.dnames d.didx _ [] (omega arith)

  pub put_name-other : (i : ℕ) → d.didx ≢ i → dname (put_name t d) i ≡ dname d i
  unfolding put_name
  put_name-other i h = get_or-set_ne d.dnames d.didx i _ [] h

  -- The slot that the write goes to holds the token.
  pub put_name_lem : d.didx < max_disk_num → cstr (dname (put_name t d) d.didx) ≡ t
  put_name_lem h = rw (put_name-same h) (cstr-strncpy (dname d d.didx) t text)

module _ {d : Disk} (v : Valid d) (t : Bytes) (text : IsText t) where
  open v use {sizes, named}

  put_name-sizes :
      length t + 1 ≤ max_dname_size
      → d.didx < max_disk_num
      → (i : ℕ) → i < max_disk_num
      → length (dname (put_name t d) i) ≡ max_dname_size
  put_name-sizes short room i h = elim (ℕ_discrete d.didx i) [
    | yes e ↦
        rw (← e, put_name-same v t text room)
          (length-strncpy (dname d d.didx) t (length t + 1) (omega (arith, sizes d.didx room))
            ∙ sizes d.didx room)
    | no ne ↦ rw (put_name-other v t text i ne) (sizes i h)
  ]

  put_name-named :
      0 < length t
      → length t + 1 ≤ max_dname_size
      → d.didx < max_disk_num
      → (i : ℕ) → i < d.didx + 1
      → Holds (dname (put_name t d) i)
  put_name-named filled short room i h = elim (ℕ_discrete d.didx i) [
    | yes e ↦ rw (← e, put_name_lem v t text room) (omega arith)
    | no ne ↦ rw (put_name-other v t text i ne) (named i (omega arith))
  ]

  pub put_name-Valid :
      0 < length t → length t + 1 ≤ max_dname_size → d.didx < max_disk_num → Valid (put_name t d)
  put_name-Valid filled short room = record {
    slots = unfold put_name in length-set d.dnames d.didx _ ∙ v.slots;
    sizes = put_name-sizes short room;
    counters = unfold put_name in v.counters;
    few = unfold put_name in omega arith;
    named = unfold put_name in put_name-named filled short room;
    gated = unfold put_name in v.gated;
  }

pub length_of_filled : (t : Bytes) → is_empty t ≡ false → 0 < length t
length_of_filled [] h = cc
length_of_filled (c ∷ t) h = omega arith

-- A result that is no fault leaves a valid state.
abbrev pub ValidResult : Option (Ret × Disk) → Type 0
ValidResult none = Unit
ValidResult (some (r, d)) = Valid d

store_names-Valid :
    (ts : List Bytes) (d : Disk) → All IsText ts → Valid d → ValidResult (store_names ts d)
unfolding store_names
store_names-Valid [] d h v = v
store_names-Valid (t ∷ ts) d (text, texts) v = elim (Bool-cases (is_empty t)) [
  | inl e ↦ rw e (store_names-Valid ts d texts v)
  | inr filled ↦ elim (Bool-cases (ltb max_dname_size (length t + 1))) [
    | inl long ↦ rw (filled, long) v
    | inr short ↦ elim (Bool-cases (ltb d.didx max_disk_num)) [
      | inl room ↦
          rw (filled, short, room)
            (store_names-Valid ts (put_name t d) texts (
              put_name-Valid v t text (length_of_filled t filled) (ltb→le _ _ short)
                (ltb→lt _ _ room)))
      | inr over ↦ rw (filled, short, over) tt
    ]
  ]
]

filter_done-Valid : (o : Option (Ret × Disk)) → ValidResult o → ValidResult (filter_done o)
filter_done-Valid none h = tt
filter_done-Valid (some (fail e, d)) h = h
filter_done-Valid (some (ok n, d)) h =
    Valid-if d.denabled (λ e. Valid-flags d.dutils d.denabled true h h.counters (λ _. e)) (λ _. h)

-- The state that a write to `filter` leaves is valid, whatever text is written and whichever error
-- is returned, unless the write ran past the array.
pub dutils_filter_write-Valid :
    (K : Kernel) (dup : Bool) (text : Bytes) (d : Disk)
    → IsText text
    → Valid d
    → ValidResult (dutils_filter_write K dup text d)
unfolding dutils_filter_write
dutils_filter_write-Valid K false text d h v = v
dutils_filter_write-Valid K true text d h v = filter_done-Valid _ (
    store_names-Valid (all_tokens (K.strstrip text)) _ (all_tokens-IsText _ (K.strips-text text h))
      (Valid-reset d.dutils d.denabled v v.counters))

pub dutils_enable_write-Valid : (val : ℕ) (d : Disk) → Valid d → Valid (dutils_enable_write val d).1
unfolding dutils_enable_write
dutils_enable_write-Valid val d v = elim (Bool-cases (val % 256 == 0)) [
  | inl e ↦
      rw e (Valid-reset (clear d.didx d.dutils) false v (length-clear d.didx d.dutils ∙ v.counters))
  | inr e ↦ rw e (Valid-flags d.dutils true true v v.counters (λ _. refl))
]

pub dutils_output_read-Valid :
    (K : Kernel) (d : Disk) (s : Seq) → Valid d → Valid (dutils_output_read K d s).1
unfolding dutils_output_read
dutils_output_read-Valid K d s v =
    Valid-if d.denabled (λ e. Valid-flags d.dutils d.denabled true v v.counters (λ _. e))
      (λ e. Valid-flags d.dutils d.denabled false v v.counters (λ h. cc))

credit-Valid :
    (K : Kernel) (now : ℕ) (part : Part) (d : Disk) (o : Option ℕ)
    → Valid d
    → Valid (credit K now part d o)
unfolding credit
credit-Valid K now part d none v = v
credit-Valid K now part d (some idx) v =
    Valid-if (K.time_after now part.stamp && not (part.in_flight == 0))
      (λ _. Valid-flags _ d.denabled d.armed v (length-set d.dutils idx _ ∙ v.counters) v.gated)
      (λ _. v)

pub on_part_round_stats_ent-Valid :
    (K : Kernel) (now : ℕ) (part part0 : Part) (d : Disk)
    → Valid d
    → Valid (on_part_round_stats_ent K now part part0 d)
unfolding on_part_round_stats_ent
on_part_round_stats_ent-Valid K now part part0 d v =
    credit-Valid K now (if part.partno == 0 then part else part0) d _ v

pub init-Valid : Valid init
init-Valid = record {
  slots = refl;
  sizes = λ i h.
      ap length (get_or-replicate max_disk_num i (replicate max_dname_size 0) [] h)
      ∙ length-replicate {A = ℕ} max_dname_size 0;
  counters = refl;
  few = omega arith;
  named = λ i h. absurd (omega arith);
  gated = λ h. cc;
}
