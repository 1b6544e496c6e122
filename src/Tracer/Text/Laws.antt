-- ===== src/Tracer/Text/Laws.antt =====
-- Copying into a slot and comparing with it, through the string that the slot holds.
use Prim.Native.Nat.add
use native.Mathlib.Numerals.{add-one}
use w_perf_archived.Base.{
  ℕ, zero, suc, ◌+◌, ◌<◌, ◌≤◌, ◌≡◌, refl, ap, ◌↔◌, true, [], ◌∷◌, ◌++◌, arith, length, take, drop,
  replicate, length-append, length-drop, length-take_le, length-replicate, append_assoc,
}
use w_perf_archived.Tracer.Text.{Bytes, cstr, strncpy, strncmp_eq, IsText}

take_through : (s t : Bytes) → take (length s + 1) (s ++ 0 ∷ t) ≡ s ++ 0 ∷ []
take_through [] t = refl
take_through (c ∷ s) t = rw add.suc (ap (λ l. c ∷ l) (take_through s t))

pub length-strncpy :
    (dst src : Bytes) (n : ℕ) → n ≤ length dst → length (strncpy dst src n) ≡ length dst
unfolding strncpy
length-strncpy dst src n h = omega (
  arith,
  length-append (take n (src ++ replicate n 0)) (drop n dst),
  length-take_le n (src ++ replicate n 0),
  length-append src (replicate n 0),
  length-replicate {A = ℕ} n 0,
  length-drop n dst,
)

pub cstr-text : (s t : Bytes) → IsText s → cstr (s ++ 0 ∷ t) ≡ s
unfolding cstr
cstr-text [] t h = refl
cstr-text (c ∷ s) t (hc, hs) = ground (arith, cstr-text s t hs)

-- A copy of a string with its NUL.
pub cstr-strncpy : (dst src : Bytes) → IsText src → cstr (strncpy dst src (length src + 1)) ≡ src
unfolding strncpy
cstr-strncpy dst src h =
    rw (add-one (length src), ← add-one (length src), take_through src, append_assoc)
      (cstr-text src _ h)

pub strncmp_eq_iff :
    (n : ℕ) (a b : Bytes)
    → IsText a
    → length (cstr b) < n
    → (strncmp_eq n a b ≡ true) ↔ (a ≡ cstr b)
unfolding strncmp_eq cstr
strncmp_eq_iff zero a b ha h = elim h [ ]
strncmp_eq_iff (suc n) [] [] ha h = ground arith
strncmp_eq_iff (suc n) [] (d ∷ b) ha h = ground arith
strncmp_eq_iff (suc n) (c ∷ a) [] ha h = ground arith
strncmp_eq_iff (suc n) (c ∷ a) (d ∷ b) (hc, ha) h = ground (arith, strncmp_eq_iff n a b ha)
