-- ===== src/Trace/Mpi.antt =====
-- core/collectors/mpi/collector.c built for traces.
use cbtf_krell.Prelude.{ℕ, Bool, true, false, ◌||◌, List, [], ltb, if◌then◌else◌}
use cbtf_krell.Header.{DataHeader}
use cbtf_krell.Trace.Types.{
  Event, zero_event, Tls, Blob, Setup, Env, increment, decrement, with_function, names, skip,
}
use cbtf_krell.Trace.Buffer.{initialize_data, send_samples, store}

unfoldable pub mpi_start_event : Tls → Tls × Event
mpi_start_event t = (record t { nesting_depth = increment t.nesting_depth }, zero_event)

-- `mpi_record_event`; the depth stays 0 while the unwinder runs.
unfoldable pub mpi_record_event : Setup → Env → Event → ℕ → List ℕ → Tls → Tls × List Blob
unfolding store
mpi_record_event u env e function frames t =
    let t' : Tls = record t { do_trace = false; nesting_depth = decrement t.nesting_depth } in
    if ltb 0 t'.nesting_depth
    then (t', [])
    else (let (t'', sent) = store u env e (with_function function frames) t' in
        (record t'' { do_trace = true }, sent))

-- `cbtf_collector_start`, for the thread with the number `thread_num`. It waits for nothing.
unfoldable pub mpi_collector_start : ℕ → DataHeader → List ℕ → ℕ → ℕ → Tls → Tls
unfolding initialize_data
mpi_collector_start thread_num header functions now later t =
    let t' : Tls =
      initialize_data now
        (record t { defer_sampling = false; traced = functions; header = header }) in
    record t' {
      nesting_depth = 0;
      header = record t'.header { omp_tid = thread_num; time_begin = later };
      do_trace = true;
    }

unfoldable pub mpi_collector_pause : Tls → Tls
mpi_collector_pause t = record t { defer_sampling = true; do_trace = false }

unfoldable pub mpi_collector_resume : Tls → Tls
mpi_collector_resume t = record t { defer_sampling = false; do_trace = true }

-- `cbtf_collector_stop`
unfoldable pub mpi_collector_stop : Setup → Env → ℕ → Tls → Tls × List Blob
unfolding send_samples
mpi_collector_stop u env time t =
    let t' : Tls = record t { header = record t.header { time_end = time }; do_trace = false } in
    if ltb 0 t.events_len || ltb 0 t.stacktraces_len
    then send_samples u env.rank env.ended env.begun t'
    else (t', [])

-- `mpi_do_trace` for the function `f`, with CBTF_SERVICE_USE_OFFLINE.
unfoldable pub mpi_do_trace : ℕ → Tls → Tls × Bool
mpi_do_trace f t = if t.do_trace then (if names f t.traced then (t, true) else skip t) else skip t
