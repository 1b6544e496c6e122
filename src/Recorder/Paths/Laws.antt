-- ===== src/Recorder/Paths/Laws.antt =====
-- Different events have different files.
use w_perf_archived.Base.{
  ℕ, ◌<◌, ◌≡◌, ◌≢◌, ◌∙◌, sym, refl, ap, [], ◌∷◌, ◌++◌, length, take-all, arith, All,
}
use w_perf_archived.Tracer.Text.{Bytes, codes}
use w_perf_archived.Recorder.Paths.{
  max_path_len, slash, snprintf, event_file, event_rest, event_end, get_instance_filter,
  get_instance_enable,
}

abbrev pub IsSegment : Bytes → Type 0
IsSegment = All (λ c. c ≢ slash)

tail_of : Bytes → Bytes
tail_of [] = []
tail_of (c ∷ s) = s

head_of : Bytes → ℕ
head_of [] = 0
head_of (c ∷ s) = c

append-cancel : (p s t : Bytes) → p ++ s ≡ p ++ t → s ≡ t
append-cancel [] s t e = e
append-cancel (c ∷ p) s t e = append-cancel p s t (unfold tail_of in ap tail_of e)

-- The text up to the first slash is determined.
segment-cancel :
    (a b s t : Bytes)
    → IsSegment a
    → IsSegment b
    → a ++ slash ∷ s ≡ b ++ slash ∷ t
    → (a ≡ b) × (s ≡ t)
unfolding tail_of head_of
segment-cancel [] [] s t ha hb e = (refl, ap tail_of e)
segment-cancel [] (c ∷ b) s t ha (h, hb) e = absurd (h (sym (ap head_of e)))
segment-cancel (c ∷ a) [] s t (h, ha) hb e = absurd (h (ap head_of e))
segment-cancel (c ∷ a) (d ∷ b) s t (h, ha) (k, hb) e =
    let (p, q) = segment-cancel a b s t ha hb (ap tail_of e) in
    (ap (λ x. x ∷ a) (ap head_of e) ∙ ap (λ x. d ∷ x) p, q)

abbrev pub Fits : Bytes → Type 0
Fits text = length text < max_path_len

snprintf-Fits : (text : Bytes) → Fits text → snprintf text ≡ text
snprintf-Fits text h = take-all 99 text (omega arith)

event_file-cancel :
    (base i j e f g h : Bytes)
    → IsSegment i
    → IsSegment j
    → IsSegment e
    → IsSegment f
    → event_file base i e g ≡ event_file base j f h
    → (i ≡ j) × (e ≡ f) × (g ≡ h)
event_file-cancel base i j e f g h si sj se sf eq =
    let (p, rest) = segment-cancel i j (event_end e g) (event_end f h) si sj (
      unfold tail_of in ap tail_of (append-cancel base (event_rest i e g) (event_rest j f h) eq)) in
    let (q, r) =
      segment-cancel e f g h se sf
        (append-cancel (codes "events/wperf/") (e ++ slash ∷ g) (f ++ slash ∷ h) rest) in
    (p, q, r)

module _ (base i j e f : Bytes) where
  -- Where the path fits the buffer and no name holds a slash, the path of a filter determines its
  -- instance and its event.
  pub get_instance_filter-distinct :
      IsSegment i
      → IsSegment j
      → IsSegment e
      → IsSegment f
      → Fits (event_file base i e (codes "filter"))
      → Fits (event_file base j f (codes "filter"))
      → get_instance_filter base i e ≡ get_instance_filter base j f
      → (i ≡ j) × (e ≡ f)
  unfolding get_instance_filter
  get_instance_filter-distinct si sj se sf hi hj eq =
      let (p, q, r) =
        event_file-cancel base i j e f _ _ si sj se sf
          (sym (snprintf-Fits _ hi) ∙ eq ∙ snprintf-Fits _ hj) in
      (p, q)

  -- Where the paths fit the buffer and no name holds a slash, the filter of an event and the flag
  -- of an event are different files.
  pub get_instance_filter-enable :
      IsSegment i
      → IsSegment j
      → IsSegment e
      → IsSegment f
      → Fits (event_file base i e (codes "filter"))
      → Fits (event_file base j f (codes "enable"))
      → get_instance_filter base i e ≢ get_instance_enable base j f
  unfolding get_instance_filter get_instance_enable head_of
  get_instance_filter-enable si sj se sf hi hj eq =
      let (p, q, r) =
        event_file-cancel base i j e f _ _ si sj se sf
          (sym (snprintf-Fits _ hi) ∙ eq ∙ snprintf-Fits _ hj) in
      let c : head_of (codes "filter") ≡ head_of (codes "enable") = ap head_of r in omega (arith, c)
