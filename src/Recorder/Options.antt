-- ===== src/Recorder/Options.antt =====
-- The options of the recorder: `init_config` and `parse_opts` of recorder/main.c.
-- The options come as `getopt` returns them; `scan` is the `sscanf` of the period, `none` where it does
-- not read a number.
pub mod Laws
use w_perf_archived.Base.{ℕ, Option, none, some, List, [], ◌∷◌}
use w_perf_archived.Tracer.Text.{Bytes, codes}

-- A result of `getopt` with its `optarg`; `other` is -h, an unknown option, or a missing argument.
pub data Opt : Type 0 where
  filter period disks nics output bufsize : Bytes → Opt
  other : Opt

-- The fields of `struct config` that options set.
pub record Config : Type 0 where
  pub filter_expr : Option Bytes
  pub timeout : ℕ
  pub disk_list : Option Bytes
  pub nic_list : Option Bytes
  pub output_dir : Bytes
  pub bufsize_kb : Bytes

unfoldable pub init_config : Config
init_config = record {
  filter_expr = none;
  timeout = 90000;
  disk_list = none;
  nic_list = none;
  output_dir = codes "/tmp/wperf";
  bufsize_kb = codes "4096";
}

-- The case of -P, behind its `sscanf`.
abbrev pub set_timeout : Option ℕ → Config → Option Config
set_timeout none cf = none
set_timeout (some t) cf = some (record cf { timeout = t })

-- One round of the loop; `none` where `usage` ends the program.
unfoldable pub set_opt : (Bytes → Option ℕ) → Opt → Config → Option Config
set_opt scan (filter arg) cf = some (record cf { filter_expr = some arg })
set_opt scan (period arg) cf = set_timeout (scan arg) cf
set_opt scan (disks arg) cf = some (record cf { disk_list = some arg })
set_opt scan (nics arg) cf = some (record cf { nic_list = some arg })
set_opt scan (output arg) cf = some (record cf { output_dir = arg })
set_opt scan (bufsize arg) cf = some (record cf { bufsize_kb = arg })
set_opt scan other cf = none

abbrev pub then_parse : (Config → Option Config) → Option Config → Option Config
then_parse f none = none
then_parse f (some cf) = f cf

unfoldable pub parse_opts : (Bytes → Option ℕ) → List Opt → Config → Option Config
unfolding set_opt
parse_opts scan [] cf = some cf
parse_opts scan (o ∷ os) cf = then_parse (parse_opts scan os) (set_opt scan o cf)
