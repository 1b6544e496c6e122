-- ===== src/Tracer/Tx/Valid.antt =====
-- The invariant of the `tx_stat` data, and that every handler keeps it.
use mathlib.Core.Path.{subst}
use w_perf_archived.Base.{
  ap, sym, ◌∙◌, ℕ, ◌<◌, ◌%◌, ◌^◌, ◌≡◌, refl, Bool, true, false, Option, none, some, List, [], ◌∷◌,
  arith, ltb, ◌==◌, Bool-cases, inl, inr, ltb→lt,
}
use w_perf_archived.Tracer.Text.{Bytes, all_tokens}
use w_perf_archived.Tracer.Kernel.{Kernel, Parsed, value, bad, Ret, ok, fail}
use w_perf_archived.Tracer.Tx.{
  as_int, Tx, init, switch_off, enable_tx_stat_probes, disable_tx_stat_probes,
  tx_stats_enable_write, set_bit, add_pid, add_pids, resume, filter_done, tx_stats_filter_write,
}
use w_perf_archived.Tracer.Tx.Count.{Send, send, send-Added}
use w_perf_archived.Tracer.Tx.Filter.{all_probes, resume-rest, resume-probes, off-probes}

-- The probes are on together, and only while the event is enabled; a pid that is watched is one of
-- the bitmap; a counter fits its word.
pub record Valid (K : Kernel) (t : Tx) : Type 0 where
  pub on : Bool
  pub together : t.probes ≡ all_probes on
  pub gated : on ≡ true → t.tx_enabled ≡ true
  pub inside : (n : ℕ) → t.filter n ≡ true → n < K.pid_max
  pub words : (n : ℕ) → t.tx_stats n < 2 ^ 64

module _ (K : Kernel) where
  pub init-Valid : Valid K init
  init-Valid = record {
    on = false;
    together = refl;
    gated = λ e. cc;
    inside = λ n e. cc;
    words = λ n. omega arith;
  }

  pub send-Valid : (s : Send) (t : Tx) → Valid K t → Valid K (send s t)
  send-Valid s t v =
      let a = send-Added s t 0 (v.words 0) in
      record {
        on = v.on;
        together = a.probes ∙ v.together;
        gated = λ e. a.enabled ∙ v.gated e;
        inside = λ n e. v.inside n (ap (λ (f : ℕ → Bool). f n) (sym a.filter) ∙ e);
        words = λ n. (send-Added s t n (v.words n)).word;
      }

  pub tx_stats_enable_write-Valid :
      (val : ℕ) (t : Tx) → Valid K t → Valid K (tx_stats_enable_write val t).1
  unfolding tx_stats_enable_write enable_tx_stat_probes disable_tx_stat_probes
  tx_stats_enable_write-Valid val t v = elim (Bool-cases (val % 256 == 0)) [
    | inl e ↦ rw e (record {
      on = false;
      together = refl;
      gated = λ h. cc;
      inside = λ n h. cc;
      words = v.words;
    })
    | inr e ↦ rw e (record {
      on = true;
      together = refl;
      gated = λ h. refl;
      inside = v.inside;
      words = v.words;
    })
  ]

  -- A state in which the probes are off.
  abbrev Quiet : Tx → Type 0
  Quiet t = Valid K t × (t.probes ≡ all_probes false)

  switch_off-Quiet : (t : Tx) → Valid K t → Quiet (switch_off t)
  switch_off-Quiet t v = (
    record {
      on = false;
      together = off-probes t;
      gated = λ e. cc;
      inside = v.inside;
      words = v.words;
    },
    off-probes t,
  )

  abbrev QuietResult : Option (Ret × Tx) → Type 0
  QuietResult none = Unit
  QuietResult (some (r, t)) = Quiet t

  set_bit-Quiet : (p : ℕ) (t : Tx) → p < K.pid_max → Quiet t → Quiet (set_bit p t)
  set_bit-Quiet p t lt (v, q) = (
    record {
      on = v.on;
      together = v.together;
      gated = v.gated;
      inside = λ n e. ground (arith, v.inside n);
      words = v.words;
    },
    q,
  )

  add_pid-Quiet :
      (x : Parsed) (t : Tx) (next : Tx → Option (Ret × Tx))
      → ((u : Tx) → Quiet u → QuietResult (next u))
      → Quiet t
      → QuietResult (add_pid K x t next)
  unfolding add_pid
  add_pid-Quiet (bad e) t next h (v, q) = (
    record {
      on = v.on;
      together = v.together;
      gated = v.gated;
      inside = λ n k. cc;
      words = v.words;
    },
    q,
  )
  add_pid-Quiet (value p) t next h k = elim (Bool-cases (ltb (as_int p) K.pid_max)) [
    | inl e ↦ rw e (h (set_bit (as_int p) t) (set_bit-Quiet (as_int p) t (ltb→lt _ _ e) k))
    | inr e ↦ rw e tt
  ]

  add_pids-Quiet : (ss : List Bytes) (t : Tx) → Quiet t → QuietResult (add_pids K ss t)
  unfolding add_pids
  add_pids-Quiet [] t h = h
  add_pids-Quiet ([] ∷ ss) t h = add_pids-Quiet ss t h
  add_pids-Quiet ((c ∷ s) ∷ ss) t h =
      add_pid-Quiet (K.kstrtoul (c ∷ s)) t (add_pids K ss) (λ u. add_pids-Quiet ss u) h

  abbrev pub ValidResult : Option (Ret × Tx) → Type 0
  ValidResult none = Unit
  ValidResult (some (r, t)) = Valid K t

  resume-Valid : (t : Tx) → Quiet t → Valid K (resume t)
  resume-Valid t (v, q) =
      let (f, s, e) = resume-rest t in
      record {
        on = t.tx_enabled;
        together = resume-probes t t.tx_enabled refl q;
        gated = λ h. e ∙ h;
        inside = λ n h. v.inside n (ap (λ (g : ℕ → Bool). g n) (sym f) ∙ h);
        words = λ n. subst (λ (g : ℕ → ℕ). g n < 2 ^ 64) (sym s) (v.words n);
      }

  filter_done-Valid : (o : Option (Ret × Tx)) → QuietResult o → ValidResult (filter_done o)
  filter_done-Valid none h = tt
  filter_done-Valid (some (fail e, t)) h = h.0
  filter_done-Valid (some (ok n, t)) h = resume-Valid t h

  pub tx_stats_filter_write-Valid :
      (dup : Bool) (text : Bytes) (t : Tx)
      → Valid K t
      → ValidResult (tx_stats_filter_write K dup text t)
  unfolding tx_stats_filter_write
  tx_stats_filter_write-Valid false text t v = v
  tx_stats_filter_write-Valid true text t v =
      filter_done-Valid _ (add_pids-Quiet (all_tokens (K.strstrip text)) _ (switch_off-Quiet t v))
