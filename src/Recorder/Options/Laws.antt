-- ===== src/Recorder/Options/Laws.antt =====
-- What the options come to.
use w_perf_archived.Base.{
  ℕ, ◌≡◌, refl, Bool, true, false, ◌&&◌, Option, none, some, Option-cases, inl, inr, List, [], ◌∷◌,
  if◌then◌else◌,
}
use w_perf_archived.Tracer.Text.{Bytes}
use w_perf_archived.Recorder.Options.{
  Opt, filter, period, disks, nics, output, bufsize, other, Config, set_opt, parse_opts,
}

abbrev pub or_else {ℓ} : {A : Type ℓ} → Option A → A → A
or_else none d = d
or_else (some a) d = a

-- The last value that an option gives, or else `d`.
abbrev pub last {ℓ} : {A : Type ℓ} → (Opt → Option A) → List Opt → A → A
last pick [] d = d
last pick (o ∷ os) d = last pick os (or_else (pick o) d)

module _ (scan : Bytes → Option ℕ) where
  abbrev pub pick_filter : Opt → Option (Option Bytes)
  pick_filter (filter a) = some (some a)
  pick_filter _ = none

  abbrev pub pick_timeout : Opt → Option ℕ
  pick_timeout (period a) = scan a
  pick_timeout _ = none

  abbrev pub pick_disks : Opt → Option (Option Bytes)
  pick_disks (disks a) = some (some a)
  pick_disks _ = none

  abbrev pub pick_nics : Opt → Option (Option Bytes)
  pick_nics (nics a) = some (some a)
  pick_nics _ = none

  abbrev pub pick_output : Opt → Option Bytes
  pick_output (output a) = some a
  pick_output _ = none

  abbrev pub pick_bufsize : Opt → Option Bytes
  pick_bufsize (bufsize a) = some a
  pick_bufsize _ = none

  abbrev pub lasts : List Opt → Config → Config
  lasts os cf = record {
    filter_expr = last pick_filter os cf.filter_expr;
    timeout = last pick_timeout os cf.timeout;
    disk_list = last pick_disks os cf.disk_list;
    nic_list = last pick_nics os cf.nic_list;
    output_dir = last pick_output os cf.output_dir;
    bufsize_kb = last pick_bufsize os cf.bufsize_kb;
  }

  abbrev pub is_some {ℓ} : {A : Type ℓ} → Option A → Bool
  is_some none = false
  is_some (some a) = true

  abbrev pub is_good : Opt → Bool
  is_good (period a) = is_some (scan a)
  is_good other = false
  is_good _ = true

  abbrev pub all_good : List Opt → Bool
  all_good [] = true
  all_good (o ∷ os) = is_good o && all_good os

  -- The options end in `usage` exactly if one of them is not known or is a period that is no
  -- number; else each field has the last value that an option gives it, or the one it had.
  pub parse_opts-lasts :
      (os : List Opt) (cf : Config)
      → parse_opts scan os cf ≡ (if all_good os then some (lasts os cf) else none)
  unfolding parse_opts set_opt
  parse_opts-lasts [] cf = refl
  parse_opts-lasts (filter a ∷ os) cf = parse_opts-lasts os _
  parse_opts-lasts (period a ∷ os) cf = elim (Option-cases (scan a)) [
    | inl e ↦ rw e refl
    | inr (t, e) ↦ rw e (parse_opts-lasts os (record cf { timeout = t }))
  ]
  parse_opts-lasts (disks a ∷ os) cf = parse_opts-lasts os _
  parse_opts-lasts (nics a ∷ os) cf = parse_opts-lasts os _
  parse_opts-lasts (output a ∷ os) cf = parse_opts-lasts os _
  parse_opts-lasts (bufsize a ∷ os) cf = parse_opts-lasts os _
  parse_opts-lasts (other ∷ os) cf = refl
