-- ===== src/Recorder/Paths.antt =====
-- The paths that the recorder builds with `snprintf`, of recorder/defs.h.
pub mod Laws
use w_perf_archived.Base.{ℕ, ◌-◌, List, [], ◌∷◌, ◌++◌, take}
use w_perf_archived.Tracer.Text.{Bytes, codes}

abbrev pub max_path_len : ℕ
max_path_len = 100

abbrev pub slash : ℕ
slash = b'/'

-- What `snprintf(dir, MAX_PATH_LEN, …)` leaves of a text: the NUL takes the last place.
abbrev pub snprintf : Bytes → Bytes
snprintf text = take (max_path_len - 1) text

-- `create_instance_dir` and `create_instance_output`: the directory that is made.
unfoldable pub create_instance_dir : Bytes → Bytes → Bytes
create_instance_dir base name = snprintf (base ++ slash ∷ name)

unfoldable pub create_instance_output : Bytes → Bytes → Bytes
create_instance_output base name = snprintf (slash ∷ base ++ slash ∷ name)

unfoldable pub get_instance_input : Bytes → Bytes → Bytes
get_instance_input base name = snprintf (base ++ slash ∷ name ++ codes "/trace_pipe")

unfoldable pub get_instance_bufsize : Bytes → Bytes → Bytes
get_instance_bufsize base name = snprintf (base ++ slash ∷ name ++ codes "/buffer_size_kb")

unfoldable pub get_instance_output : Bytes → Bytes → Bytes
get_instance_output base name = snprintf (base ++ slash ∷ name ++ codes "/output")

abbrev pub event_end : Bytes → Bytes → Bytes
event_end event file = codes "events/wperf/" ++ event ++ slash ∷ file

abbrev pub event_rest : Bytes → Bytes → Bytes → Bytes
event_rest inst event file = slash ∷ inst ++ slash ∷ event_end event file

-- "%s/%s/events/wperf/%s/" and the name of a file.
abbrev pub event_file : Bytes → Bytes → Bytes → Bytes → Bytes
event_file base inst event file = base ++ event_rest inst event file

unfoldable pub get_instance_filter : Bytes → Bytes → Bytes → Bytes
get_instance_filter base inst event = snprintf (event_file base inst event (codes "filter"))

unfoldable pub get_instance_enable : Bytes → Bytes → Bytes → Bytes
get_instance_enable base inst event = snprintf (event_file base inst event (codes "enable"))
