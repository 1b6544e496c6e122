-- ===== src/Tests/Kernel.antt =====
-- A kernel with pages of 4096 bytes, whose functions do what the parameter `Kernel` asks for.
use w_perf_archived.Base.{
  ℕ, zero, suc, ◌+◌, ◌-◌, ◌*◌, ◌/◌, ◌%◌, ◌^◌, ◌<◌, ◌≤◌, ◌≡◌, ◌⊎◌, refl, Bool, ◌==◌, ◌&&◌, true,
  false, ◌||◌, [], ◌∷◌, ◌++◌, arith, ltb, ltb→lt, Bool-cases, inl, inr, leb, if◌then◌else◌, length,
  All,
}
use w_perf_archived.Tracer.Text.{Bytes, IsText, IsGraph, IsBlank}
use w_perf_archived.Tracer.Kernel.{Kernel, Seq, Parsed, value, bad, einval, erange}

abbrev page_size : ℕ
page_size = 4096

abbrev is_space : ℕ → Bool
is_space c = (c == 32) || leb 9 c && leb c 13

unfoldable pub strip_end : Bytes → Bytes
strip_end [] = []
strip_end (c ∷ s) =
    let r = strip_end s in elim r [ [] ↦ if is_space c then [] else c ∷ [] | d ∷ t ↦ c ∷ d ∷ t ]

unfoldable pub strip_start : Bytes → Bytes
strip_start [] = []
strip_start (c ∷ s) = if is_space c then strip_start s else c ∷ s

strip_end-blank : (s : Bytes) → All IsBlank s → strip_end s ≡ []
unfolding strip_end
strip_end-blank [] h = refl
strip_end-blank (c ∷ s) (h, hs) = ground (arith, strip_end-blank s hs)

strip_end-graph : (s t : Bytes) → All IsGraph s → All IsBlank t → strip_end (s ++ t) ≡ s
unfolding strip_end
strip_end-graph [] t h k = strip_end-blank t k
strip_end-graph (c ∷ []) t (h, hs) k = ground (arith, strip_end-blank t k)
strip_end-graph (c ∷ d ∷ s) t (h, hs) k = ground (arith, strip_end-graph (d ∷ s) t hs k)

strip_start-graph : (s : Bytes) → All IsGraph s → strip_start s ≡ s
unfolding strip_start
strip_start-graph [] h = refl
strip_start-graph (c ∷ s) (h, hs) = ground arith

pub strip_end-IsText : (s : Bytes) → IsText s → IsText (strip_end s)
unfolding strip_end
strip_end-IsText [] h = tt
strip_end-IsText (c ∷ s) (h, hs) = ground (arith, strip_end-IsText s hs)

pub strip_start-IsText : (s : Bytes) → IsText s → IsText (strip_start s)
unfolding strip_start
strip_start-IsText [] h = tt
strip_start-IsText (c ∷ s) (h, hs) = ground (arith, strip_start-IsText s hs)

pub strip-graph :
    (s t : Bytes) → All IsGraph s → All IsBlank t → strip_start (strip_end (s ++ t)) ≡ s
strip-graph s t h k = rw (strip_end-graph s t h k) (strip_start-graph s h)

-- At most `f + 1` digits, the last ones.
unfoldable pub digits : ℕ → ℕ → Bytes → Bytes
digits zero n out = (b'0' + n % 10) ∷ out
digits (suc f) n out =
    let more = digits f (n / 10) ((b'0' + n % 10) ∷ out) in
    if ltb n 10 then (b'0' + n % 10) ∷ out else more

length-digits : (f n : ℕ) (out : Bytes) → length (digits f n out) ≤ suc f + length out
unfolding digits
length-digits zero n out = omega arith
length-digits (suc f) n out = ground (arith, length-digits f (n / 10) ((b'0' + n % 10) ∷ out))

digits_filled : (f n : ℕ) (out : Bytes) → 0 < length (digits f n out)
unfolding digits
digits_filled zero n out = omega arith
digits_filled (suc f) n out = ground (arith, digits_filled f (n / 10) ((b'0' + n % 10) ∷ out))

pub filled : (n : ℕ) → 0 < length (digits 19 n [])
filled n = digits_filled 19 n []

pub short : (n : ℕ) → length (digits 19 n []) ≤ 20
short n = omega (arith, length-digits 19 n [])

unfoldable pub number : ℕ → Bytes → Parsed
number n [] = value n
number n (c ∷ s) =
    let more = number (n * 10 + (c - b'0')) s in
    if ltb c b'0' || ltb b'9' c
    then bad einval
    else if ltb (2 ^ 64 - 1) (n * 10 + (c - b'0'))
    then bad erange
    else more

unfoldable pub kstrtoul : Bytes → Parsed
unfolding number
kstrtoul [] = bad einval
kstrtoul (c ∷ s) = number 0 (c ∷ s)

unfoldable pub printf : Bytes → Seq → Seq
printf t s =
    if s.full
    then s
    else if ltb (length s.text + length t + 1) page_size
    then (record s { text = s.text ++ t })
    else record s { full = true }

pub prints :
    (t : Bytes) (s : Seq)
    → s.full ≡ false
    → length s.text + length t + 1 < page_size
    → printf t s ≡ record s { text = s.text ++ t }
unfolding printf
prints t s h k = ground arith

pub prints-whole :
    (t : Bytes) (s : Seq)
    → s.full ≡ false
    → length s.text + 1 < page_size
    → ((printf t s ≡ record s { text = s.text ++ t }) × (length s.text + length t + 1 < page_size))
      ⊎ (printf t s ≡ record s { full = true })
unfolding printf
prints-whole t s h l = elim (Bool-cases (ltb (length s.text + length t + 1) page_size)) [
  | inl z ↦ inl (rw (h, z) refl, ltb→lt _ _ z)
  | inr z ↦ inr (rw (h, z) refl)
]

pub prints-full : (t : Bytes) (s : Seq) → s.full ≡ true → printf t s ≡ s
unfolding printf
prints-full t s h = ground arith

pub page_low : 4096 ≤ page_size
page_low = omega arith

pub page_high : page_size ≤ 2 ^ 32
page_high = omega arith

unfoldable pub sample : Kernel
unfolding strip_start strip_end digits kstrtoul printf
sample = record {
  page_size = page_size;
  strstrip = λ s. strip_start (strip_end s);
  kstrtoul = kstrtoul;
  dec = λ n. digits 19 n [];
  ld = λ n. digits 19 n [];
  printf = printf;
  time_after = λ a b. leb (2 ^ 63) ((b + 2 ^ 64 - a) % 2 ^ 64);
  pid_max = 64;
  page = page_low;
  page_word = page_high;
  strips = strip-graph;
  strips-text = λ s h. strip_start-IsText _ (strip_end-IsText s h);
  dec_filled = filled;
  dec_short = short;
  ld_short = short;
  prints = prints;
  prints-whole = prints-whole;
  prints-full = prints-full;
}
