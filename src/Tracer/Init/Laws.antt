-- ===== src/Tracer/Init/Laws.antt =====
-- How loading ends, on each path.
use Prim.Native.String.{String}
use w_perf_archived.Base.{
  ◌≡◌, ◌≢◌, refl, Bool, ap, ◌∙◌, sym, true, false, some, List, [], ◌∷◌, ◌++◌, append_assoc,
  append-nil, arith,
}
use w_perf_archived.Tracer.Init.{
  Loaded, Host, Event, create_event_files, create_event_dir, wperf_lookup, trace_wperf_events_init,
  Jprobe, part_round_stats, tcp_sendmsg, udp_sendmsg, tcp_sendpage, udp_sendpage, sock_sendmsg,
  wperf_jps, wperf_krps, tx_jps, switch_all, trace_wperf_events_exit, unloaded, ev_dutils,
  ev_tx_stats, make_files, second_dir, return_0, in_dir,
}

-- The files of a directory.
pub in_each : {D : Type 0} → D → List String → List (D × String)
in_each dir [] = []
in_each dir (f ∷ fs) = (dir, f) ∷ in_each dir fs

-- The jprobes that fire trace events; the others count.
abbrev pub fires : Jprobe → Bool
fires part_round_stats = false
fires tcp_sendmsg = false
fires udp_sendmsg = false
fires tcp_sendpage = false
fires udp_sendpage = false
fires sock_sendmsg = false
fires _ = true

-- The state between the registrations and the lookup.
abbrev registered : {D : Type 0} → Loaded D
registered = record unloaded { jprobes = wperf_jps; kretprobes = wperf_krps; armed = fires }

-- What loading switches.
switched-fires :
    (h : Jprobe)
    → switch_all false tx_jps
        (switch_all false (part_round_stats ∷ []) (switch_all true wperf_jps (λ k. false)))
        h
      ≡ fires h
unfolding switch_all
switched-fires h = ground arith

-- The table has them all.
switched-off : (on : Jprobe → Bool) (h : Jprobe) → switch_all false wperf_jps on h ≡ false
unfolding switch_all
switched-off on h = ground arith

switched-on : (on : Jprobe → Bool) (h : Jprobe) → switch_all true wperf_jps on h ≡ true
unfolding switch_all
switched-on on h = ground arith

-- The state that loading comes to, with the directories of the events and of the two directories.
abbrev pub loaded : {D : Type 0} → D → D → D → Loaded D
loaded root d e = record {
  jprobes = wperf_jps;
  kretprobes = wperf_krps;
  armed = fires;
  root = some root;
  made =
      (d, "enable")
      ∷ (d, "filter")
      ∷ (d, "output")
      ∷ (e, "enable")
      ∷ (e, "filter")
      ∷ (e, "output")
      ∷ [];
}

module _ {D : Type 0} (H : Host D) where
  -- No file is refused: all are made, in their order, and no other.
  create_event_files-all :
      (dir : D) (fs : List String) (st : Loaded D)
      → ((f : String) → H.create_file f dir ≡ true)
      → create_event_files H dir fs st ≡ some (record st { made = st.made ++ in_each dir fs })
  unfolding create_event_files in_each
  create_event_files-all dir [] st h =
      ap (λ l. some (record st { made = l })) (sym (append-nil st.made))
  create_event_files-all dir (f ∷ fs) st h = rw (h f) (
      create_event_files-all dir fs (record st { made = st.made ++ (dir, f) ∷ [] }) h
      ∙ ap (λ l. some (record st { made = l }))
          (append_assoc st.made ((dir, f) ∷ []) (in_each dir fs)))

  create_event_dir-all :
      (parent dir : D) (ev : Event) (st : Loaded D)
      → H.create_dir ev.name parent ≡ some dir
      → ((f : String) → H.create_file f dir ≡ true)
      → create_event_dir H parent ev st
        ≡ some (record st { made = st.made ++ in_each dir ev.files })
  unfolding create_event_dir
  create_event_dir-all parent dir ev st e h =
      ap (λ o. in_dir H o ev.files st) e ∙ create_event_files-all dir ev.files st h

  make_files-all :
      (root d e : D) (st : Loaded D)
      → H.create_dir "disk_utils" root ≡ some d
      → H.create_dir "tx_stat" root ≡ some e
      → ((f : String) (dir : D) → H.create_file f dir ≡ true)
      → make_files H (some root) st
        ≡ some (
          0,
          record st {
            root = some root;
            made = (st.made ++ in_each d ev_dutils.files) ++ in_each e ev_tx_stats.files;
          },
        )
  make_files-all root d e st m n files =
      ap (second_dir H root)
        (create_event_dir-all root d ev_dutils (record st { root = some root }) m (λ f. files f d))
      ∙ ap return_0 (create_event_dir-all root e ev_tx_stats _ n (λ f. files f e))

  -- Loading where nothing fails.
  pub trace_wperf_events_init-ok :
      (root d e : D)
      → H.register_jprobes wperf_jps ≡ 0
      → H.register_kretprobes wperf_krps ≡ 0
      → wperf_lookup H ≡ some root
      → H.create_dir "disk_utils" root ≡ some d
      → H.create_dir "tx_stat" root ≡ some e
      → ((f : String) (dir : D) → H.create_file f dir ≡ true)
      → trace_wperf_events_init H unloaded ≡ some (0, loaded root d e)
  unfolding trace_wperf_events_init in_each
  trace_wperf_events_init-ok root d e j k l m n files =
      rw (j, k)
        (ap (λ (f : Jprobe → Bool). make_files H (wperf_lookup H) (record registered { armed = f }))
            (λ i h. switched-fires h i)
          ∙ ap (λ r. make_files H r registered) l
          ∙ make_files-all root d e registered m n files)

  -- With both registrations done, the directory of the trace events found, and nothing refused by
  -- debugfs, loading ends with 0: the probes of both tables are registered, those that fire trace
  -- events are on and those that count are off, and the files are exactly the three of `disk_utils`
  -- and then the three of `tx_stat`. Unloading then leaves no probe registered or on, and all of
  -- the files where they are.
  pub trace_wperf_events_exit-init :
      (root d e : D)
      → H.register_jprobes wperf_jps ≡ 0
      → H.register_kretprobes wperf_krps ≡ 0
      → wperf_lookup H ≡ some root
      → H.create_dir "disk_utils" root ≡ some d
      → H.create_dir "tx_stat" root ≡ some e
      → ((f : String) (dir : D) → H.create_file f dir ≡ true)
      → (trace_wperf_events_init H unloaded ≡ some (0, loaded root d e))
        × (trace_wperf_events_exit (loaded root d e)
            ≡ record (loaded root d e) { jprobes = []; kretprobes = []; armed = λ h. false })
  unfolding trace_wperf_events_exit
  trace_wperf_events_exit-init root d e j k l m n files = (
    trace_wperf_events_init-ok root d e j k l m n files,
    λ i. record (loaded root d e) {
      jprobes = [];
      kretprobes = [];
      armed = λ h. switched-off fires h i;
    },
  )

  -- If the jprobes are registered and the kretprobes cannot be, loading fails with that error and
  -- leaves the jprobes registered and on.
  pub trace_wperf_events_init-leak :
      (st : Loaded D)
      → H.register_jprobes wperf_jps ≡ 0
      → H.register_kretprobes wperf_krps ≢ 0
      → (st' : Loaded D) × (trace_wperf_events_init H st
          ≡ some (H.register_kretprobes wperf_krps, st'))
        × (st'.jprobes ≡ wperf_jps)
        × ((h : Jprobe) → st'.armed h ≡ true)
  unfolding trace_wperf_events_init
  trace_wperf_events_init-leak st j k = (
    record st { jprobes = wperf_jps; armed = switch_all true wperf_jps st.armed },
    ground arith,
    refl,
    switched-on st.armed,
  )
