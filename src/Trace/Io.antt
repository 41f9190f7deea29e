-- ===== src/Trace/Io.antt =====
-- core/collectors/io/collector.c built for traces. The thread's record is `the_tls`; a function returns
-- the new record and the blobs that it sent, in order.
use cbtf_krell.Prelude.{ℕ, Bool, true, false, not, ◌||◌, List, [], ltb, if◌then◌else◌}
use cbtf_krell.Header.{DataHeader}
use cbtf_krell.Trace.Types.{
  Event, zero_event, Tls, Blob, Setup, Env, increment, decrement, with_function, names, skip,
}
use cbtf_krell.Trace.Buffer.{initialize_data, send_samples, store}

-- `io_start_event`: the record, and the event.
unfoldable pub io_start_event : Tls → Tls × Event
io_start_event t = (record t { nesting_depth = increment t.nesting_depth }, zero_event)

-- `io_record_event`; `frames` is what the unwinder gives. The depth is 1 while the unwinder runs.
unfoldable pub io_record_event : Setup → Env → Event → ℕ → List ℕ → Tls → Tls × List Blob
unfolding store
io_record_event u env e function frames t =
    let t' : Tls = record t { do_trace = false; nesting_depth = decrement t.nesting_depth } in
    if ltb 0 t'.nesting_depth
    then (t', [])
    else (let (t'', sent) =
          store u env e (with_function function frames)
            (record t' { nesting_depth = decrement (increment t'.nesting_depth) }) in
        (record t'' { do_trace = true }, sent))

-- `cbtf_collector_start`. `functions` is what the environment names, or the traceable functions;
-- `ready` is whether there is a connection to MRNet, or, in the service for files, whether the start-up
-- of MPI is over.
unfoldable pub io_collector_start : DataHeader → List ℕ → Bool → ℕ → ℕ → Tls → Tls
unfolding initialize_data
io_collector_start header functions ready now later t =
    let t' : Tls =
      initialize_data now (record t {
        defer_sampling = true;
        do_trace = false;
        traced = functions;
        header = header;
      }) in
    record t' {
      nesting_depth = 0;
      header = record t'.header { time_begin = later };
      defer_sampling = not ready;
      do_trace = ready;
    }

unfoldable pub io_collector_pause : Tls → Tls
io_collector_pause t = record t { defer_sampling = true; do_trace = false }

unfoldable pub io_collector_resume : Tls → Tls
io_collector_resume t = record t { defer_sampling = false; do_trace = true }

-- `cbtf_collector_stop`
unfoldable pub io_collector_stop : Setup → Env → ℕ → Tls → Tls × List Blob
unfolding send_samples
io_collector_stop u env time t =
    let t' : Tls = record t { header = record t.header { time_end = time }; do_trace = false } in
    if ltb 0 t.events_len || ltb 0 t.stacktraces_len
    then send_samples u env.rank env.ended env.begun t'
    else (t', [])

-- `io_do_trace` for the function `f`, with CBTF_SERVICE_USE_OFFLINE.
unfoldable pub io_do_trace : ℕ → Tls → Tls × Bool
io_do_trace f t = if t.do_trace then (if names f t.traced then (t, true) else skip t) else skip t
