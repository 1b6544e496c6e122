-- ===== src/Tracer/Files/Ops.antt =====
-- The `ev_ops` of the six event files.
use w_perf_archived.Base.{some}
use w_perf_archived.Tracer.Kernel.{Kernel}
use w_perf_archived.Tracer.Disk
use w_perf_archived.Tracer.Disk.{Disk}
use w_perf_archived.Tracer.Tx
use w_perf_archived.Tracer.Tx.{Tx, with_state}
use w_perf_archived.Tracer.Files.{EnableOps, TextOps}

abbrev pub ev_dutils_enable : EnableOps Disk
ev_dutils_enable = record { get = Disk.dutils_enable_read; put = Disk.dutils_enable_write }

abbrev pub ev_dutils_filter : Kernel → TextOps Disk
ev_dutils_filter K = record {
  print = λ d s. some (Disk.dutils_filter_read K d s, d);
  store = Disk.dutils_filter_write K;
}

abbrev pub ev_dutils_output : Kernel → TextOps Disk
ev_dutils_output K = record {
  print = λ d s. some (Disk.dutils_output_read K d s);
  store = λ dup text d. some (Disk.dutils_output_write d);
}

abbrev pub ev_tx_stats_enable : EnableOps Tx
ev_tx_stats_enable = record { get = Tx.tx_stats_enable_read; put = Tx.tx_stats_enable_write }

abbrev pub ev_tx_stats_filter : Kernel → TextOps Tx
ev_tx_stats_filter K = record {
  print = λ t s. with_state t (Tx.tx_stats_filter_read K t s);
  store = Tx.tx_stats_filter_write K;
}

abbrev pub ev_tx_stats_output : Kernel → TextOps Tx
ev_tx_stats_output K = record {
  print = Tx.tx_stats_output_read K;
  store = λ dup text t. some (Tx.tx_stats_output_write t);
}
